-- ===== src/Translations/Helper.antt =====
-- pkg/translations/helper.go. `strings.Contains` and the parsers of strconv are written out.
pub mod Names
pub mod Config
use Prim.Native.Char.{code}
use lightpath.Prelude.{
  ℕ, ◌*◌, ◌/◌, ◌%◌, ◌^◌, String, ◌<>◌, Bool, true, false, ◌||◌, Option, none, some, ◌==◌, string_eq,
  eqb, if◌then◌else◌,
}
use lightpath.Prelude.Int.{ℤ, to_uint32, u32_mod}
use lightpath.Prelude.Decimal.{sprint, parse_int}
use lightpath.Prelude.Dict.{lookup}
use lightpath.Kube.{Service, ServicePort}
use lightpath.Wellknown.{second, port_config_annotation_prefix}

-- `v1.IPv4Protocol` and `v1.IPv6Protocol`.
abbrev pub ipv4_protocol : String
ipv4_protocol = "IPv4"

abbrev pub ipv6_protocol : String
ipv6_protocol = "IPv6"

-- `strings.Contains(ip, ":")`
unfoldable pub contains_colon : String → Bool
contains_colon String.[] = false
contains_colon (String.◌∷◌ c s) = eqb (code c) b':' || contains_colon s

unfoldable pub ip_string_to_ip_family : String → String
unfolding contains_colon
ip_string_to_ip_family ip = if contains_colon ip then ipv6_protocol else ipv4_protocol

-- The rest of a format string after a bar.
abbrev pub bar : String → String
bar s = String.◌∷◌ "|" s

unfoldable pub get_cluster_name : String → String → String → ℤ → String
get_cluster_name namespace name ip_family port =
    ip_family <> bar (namespace <> bar (name <> bar (sprint port)))

unfoldable pub get_listener_name : String → String → String → ℤ → String
get_listener_name namespace name ip port =
    ip_string_to_ip_family ip <> bar (namespace <> bar (name <> bar (ip <> bar (sprint port))))

unfoldable pub get_port_settings_annotations_key : ServicePort → String → String
get_port_settings_annotations_key port setting =
    port_config_annotation_prefix <> port.name <> "-" <> setting

-- `strconv.ParseBool`; `none` is an error.
unfoldable pub parse_bool : String → Option Bool
parse_bool s =
    if s == "1" || s == "t" || s == "T" || s == "TRUE" || s == "true" || s == "True"
    then some true
    else if s == "0" || s == "f" || s == "F" || s == "FALSE" || s == "false" || s == "False"
    then some false
    else none

module _ (svc : Service) (port : ServicePort) (setting : String) where
  -- The annotation of the setting, if there is one.
  unfoldable pub annotation : Option String
  annotation = lookup (get_port_settings_annotations_key port setting) svc.annotations

  unfoldable pub get_uint32_config : ℕ → ℕ
  get_uint32_config default_value = elim annotation [
    | none ↦ default_value
    | some orig ↦ elim (parse_int orig) [ none ↦ default_value | some res ↦ to_uint32 res ]
  ]

  -- `defaultValue.Seconds()` is a whole number for every default in use; a fraction is cut off.
  unfoldable pub get_duration_config : ℕ → ℕ
  get_duration_config default_value = get_uint32_config (default_value / second % u32_mod) * second

  unfoldable pub get_bool_config : Bool → Bool
  get_bool_config default_value = elim annotation [
    | none ↦ default_value
    | some orig ↦ elim (parse_bool orig) [ none ↦ default_value | some res ↦ res ]
  ]

  unfoldable pub get_string_config : String → String
  get_string_config default_value = elim annotation [ none ↦ default_value | some orig ↦ orig ]
