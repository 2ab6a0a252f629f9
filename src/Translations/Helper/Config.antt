-- ===== src/Translations/Helper/Config.antt =====
-- Numbers from annotations: their bounds, and what becomes of a large one.
use lightpath.Prelude.{
  ◌≡◌, refl, ℕ, ◌/◌, ◌%◌, ◌^◌, ◌<◌, inl, inr, String, some, Option-cases, arith,
}
use lightpath.Prelude.Int.{to_uint32, u32_mod, to_uint32-lt}
use lightpath.Prelude.Decimal.{decimal, parse_int, parse_int-decimal}
use lightpath.Kube.{Service, ServicePort}
use lightpath.Wellknown.{second}
use lightpath.Translations.Helper.{annotation, get_uint32_config, get_duration_config}

module _ (svc : Service) (port : ServicePort) (setting : String) where
  -- A configured number fits 32 bits when its default does.
  pub get_uint32_config-lt :
      (default_value : ℕ)
      → default_value < u32_mod
      → get_uint32_config svc port setting default_value < u32_mod
  unfolding get_uint32_config
  get_uint32_config-lt default_value h = elim (Option-cases (annotation svc port setting)) [
    | inl absent ↦ rw (get_uint32_config, absent) h
    | inr (orig, present) ↦ elim (Option-cases (parse_int orig)) [
      | inl invalid ↦ rw (get_uint32_config, present, invalid) h
      | inr (res, valid) ↦ rw (get_uint32_config, present, valid) (to_uint32-lt res)
    ]
  ]

  -- A configured duration, in nanoseconds, fits the 63 bits of Go's `time.Duration`, whatever the
  -- annotation and the default, and is a whole number of seconds.
  pub get_duration_config-bounds :
      (default_value : ℕ)
      → (get_duration_config svc port setting default_value < 2 ^ 63)
        × (get_duration_config svc port setting default_value % second ≡ 0)
  unfolding get_duration_config
  get_duration_config-bounds default_value =
      let small = get_uint32_config-lt (default_value / second % u32_mod) (omega arith) in
      (omega arith, omega arith)

  -- An annotation with the digits of a number below 2 ^ 63 is taken modulo 2 ^ 32, silently: the
  -- setting is the number only when it is below 2 ^ 32.
  pub get_uint32_config-wraps :
      (n default_value : ℕ)
      → n < 2 ^ 63
      → annotation svc port setting ≡ some (decimal n)
      → get_uint32_config svc port setting default_value ≡ n % u32_mod
  unfolding get_uint32_config to_uint32
  get_uint32_config-wraps n default_value h present =
      rw (get_uint32_config, present, parse_int-decimal n h) refl
