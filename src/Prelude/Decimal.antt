-- ===== src/Prelude/Decimal.antt =====
-- `%d` and `fmt.Sprint` of an integer, and `strconv.ParseInt` in base 10.
use Prim.Native.Nat.{ℕ, zero, suc, ◌+◌, ◌-◌, ◌*◌, ◌/◌, ◌%◌, ◌^◌, ◌<◌}
use Prim.Native.Char.{Char, code}
use Prim.Native.String.{String}
use mathlib.Core.Path.{◌≡◌, refl, sym, ◌∙◌, ap}
use mathlib.Core.Bool.{Bool, true, false, ◌&&◌}
use mathlib.Core.Option
use mathlib.Core.Option.{Option, none, some, some-injective}
use mathlib.Core.Logic.{inl, inr}
use native.Mathlib.Omega.{arith}
use text.Mathlib.TextLemmas.{tail-eq_of_cons-eq}
use lightpath.Prelude.Tests.{ltb, leb, eqb, if◌then◌else◌, Bool-cases}
use lightpath.Prelude.Int.{ℤ, pos, negsuc}

unfoldable pub digit_char : ℕ → Char
digit_char zero = "0"
digit_char (suc zero) = "1"
digit_char (suc (suc zero)) = "2"
digit_char (suc (suc (suc zero))) = "3"
digit_char (suc (suc (suc (suc zero)))) = "4"
digit_char (suc (suc (suc (suc (suc zero))))) = "5"
digit_char (suc (suc (suc (suc (suc (suc zero)))))) = "6"
digit_char (suc (suc (suc (suc (suc (suc (suc zero))))))) = "7"
digit_char (suc (suc (suc (suc (suc (suc (suc (suc zero)))))))) = "8"
digit_char _ = "9"

unfoldable pub digit_value : Char → Option ℕ
digit_value c = if leb 48 (code c) && leb (code c) 57 then some (code c - 48) else none

-- The digits of the number in front of a text; the fuel is above the number.
unfoldable pub decimal_onto : ℕ → ℕ → String → String
unfolding digit_char
decimal_onto zero n text = text
decimal_onto (suc fuel) n text =
    let longer = decimal_onto fuel (n / 10) (String.◌∷◌ (digit_char (n % 10)) text) in
    if ltb n 10 then String.◌∷◌ (digit_char n) text else longer

unfoldable pub decimal : ℕ → String
unfolding decimal_onto
decimal n = decimal_onto (suc n) n ""

unfoldable pub sprint : ℤ → String
unfolding decimal
sprint (pos n) = decimal n
sprint (negsuc n) = String.◌∷◌ "-" (decimal (suc n))

-- The number that a text of digits continues.
unfoldable pub parse_digits : ℕ → String → Option ℕ
unfolding digit_value
parse_digits acc String.[] = some acc
parse_digits acc (String.◌∷◌ c s) = elim (digit_value c) [
  | none ↦ none
  | some d ↦ parse_digits (acc * 10 + d) s
]

-- One digit or more.
unfoldable pub parse_number : String → Option ℕ
unfolding parse_digits
parse_number String.[] = none
parse_number (String.◌∷◌ c s) = parse_digits 0 (String.◌∷◌ c s)

below : ℕ → Option ℕ → Option ℕ
below limit none = none
below limit (some n) = if ltb n limit then some n else none

negate : Option ℕ → Option ℤ
negate none = none
negate (some zero) = some (pos 0)
negate (some (suc n)) = some (negsuc n)

-- `strconv.ParseInt(s, 10, 64)`; `none` is an error.
unfoldable pub parse_int : String → Option ℤ
unfolding parse_number below negate
parse_int String.[] = none
parse_int (String.◌∷◌ c s) =
    if eqb (code c) b'-'
    then negate (below (2 ^ 63 + 1) (parse_number s))
    else if eqb (code c) b'+'
    then Option.map pos (below (2 ^ 63) (parse_number s))
    else Option.map pos (below (2 ^ 63) (parse_number (String.◌∷◌ c s)))

digit_value-digit_char : (d : ℕ) → d < 10 → digit_value (digit_char d) ≡ some d
unfolding digit_value digit_char
digit_value-digit_char zero h = refl
digit_value-digit_char (suc zero) h = refl
digit_value-digit_char (suc (suc zero)) h = refl
digit_value-digit_char (suc (suc (suc zero))) h = refl
digit_value-digit_char (suc (suc (suc (suc zero)))) h = refl
digit_value-digit_char (suc (suc (suc (suc (suc zero))))) h = refl
digit_value-digit_char (suc (suc (suc (suc (suc (suc zero)))))) h = refl
digit_value-digit_char (suc (suc (suc (suc (suc (suc (suc zero))))))) h = refl
digit_value-digit_char (suc (suc (suc (suc (suc (suc (suc (suc zero)))))))) h = refl
digit_value-digit_char (suc (suc (suc (suc (suc (suc (suc (suc (suc zero))))))))) h = refl
digit_value-digit_char (suc (suc (suc (suc (suc (suc (suc (suc (suc (suc d)))))))))) h =
    absurd (omega arith)

parse_digits-cons :
    (acc d : ℕ) (text : String)
    → d < 10
    → parse_digits acc (String.◌∷◌ (digit_char d) text) ≡ parse_digits (acc * 10 + d) text
unfolding parse_digits
parse_digits-cons acc d text h = rw (digit_value-digit_char d h, parse_digits)

parse_digits-decimal_onto :
    (fuel n : ℕ) (text : String)
    → n < fuel
    → parse_digits 0 (decimal_onto fuel n text) ≡ parse_digits n text
unfolding decimal_onto
parse_digits-decimal_onto zero n text h = elim h [ ]
parse_digits-decimal_onto (suc fuel) n text h = elim (Bool-cases (ltb n 10)) [
  | inl one ↦
      rw one
        (parse_digits-cons 0 n text (ground arith) ∙ ap (λ k. parse_digits k text) (omega arith))
  | inr more ↦ rw more (
      parse_digits-decimal_onto fuel (n / 10) (String.◌∷◌ (digit_char (n % 10)) text) (ground arith)
      ∙ parse_digits-cons (n / 10) (n % 10) text (omega arith)
      ∙ ap (λ k. parse_digits k text) (omega arith))
]

-- A decimal that is followed by a text is read back in front of it.
parse_digits-decimal : (n : ℕ) → parse_digits 0 (decimal n) ≡ some n
unfolding decimal parse_digits
parse_digits-decimal n = parse_digits-decimal_onto (suc n) n String.[] (omega arith)

is_cons : String → Bool
is_cons String.[] = false
is_cons (String.◌∷◌ c s) = true

is_cons-decimal_onto :
    (fuel n : ℕ) (text : String) → n < fuel → is_cons (decimal_onto fuel n text) ≡ true
unfolding decimal_onto is_cons
is_cons-decimal_onto zero n text h = elim h [ ]
is_cons-decimal_onto (suc fuel) n text h = elim (Bool-cases (ltb n 10)) [
  | inl one ↦ rw one refl
  | inr more ↦
      rw more
        (is_cons-decimal_onto fuel (n / 10) (String.◌∷◌ (digit_char (n % 10)) text) (ground arith))
]

-- A sign is no digit.
first_digit :
    (c : Char) (s : String) (n : ℕ)
    → parse_digits 0 (String.◌∷◌ c s) ≡ some n
    → (eqb (code c) b'-' ≡ false) × (eqb (code c) b'+' ≡ false)
unfolding parse_digits digit_value
first_digit c s n e = ground (arith, e)

parse_number-cons :
    (c : Char) (s : String) → parse_number (String.◌∷◌ c s) ≡ parse_digits 0 (String.◌∷◌ c s)
unfolding parse_number
parse_number-cons c s = refl

below-lt : (limit n : ℕ) → n < limit → below limit (some n) ≡ some n
unfolding below
below-lt limit n h = ground arith

parse_int-digits :
    (s : String) (n : ℕ)
    → n < 2 ^ 63
    → is_cons s ≡ true
    → parse_digits 0 s ≡ some n
    → parse_int s ≡ some (pos n)
unfolding parse_int is_cons
parse_int-digits String.[] n h some_digit e = ground arith
parse_int-digits (String.◌∷◌ c s) n h some_digit e =
    let (no_minus, no_plus) = first_digit c s n e in
    rw (no_minus, no_plus, parse_number-cons c s, e, below-lt (2 ^ 63) n h) refl

-- `ParseInt` reads back what `%d` prints.
pub parse_int-decimal : (n : ℕ) → n < 2 ^ 63 → parse_int (decimal n) ≡ some (pos n)
unfolding decimal
parse_int-decimal n h =
    parse_int-digits (decimal n) n h (is_cons-decimal_onto (suc n) n "" (omega arith))
      (parse_digits-decimal n)

-- Two numbers with the same digits are one number.
pub decimal_inj : (m n : ℕ) → decimal m ≡ decimal n → m ≡ n
decimal_inj m n e =
    some-injective m n
      (sym (parse_digits-decimal m) ∙ ap (parse_digits 0) e ∙ parse_digits-decimal n)

-- The sign is no digit.
parse_digits-minus : (s : String) → parse_digits 0 (String.◌∷◌ "-" s) ≡ none
unfolding parse_digits
parse_digits-minus s = refl

-- Two integers that are printed alike are one integer.
pub sprint_inj : (x y : ℤ) → sprint x ≡ sprint y → x ≡ y
unfolding sprint
sprint_inj (pos m) (pos n) e = ap pos (decimal_inj m n e)
sprint_inj (pos m) (negsuc n) e = cc (parse_digits-decimal m, parse_digits-minus (decimal (suc n)))
sprint_inj (negsuc m) (pos n) e = cc (parse_digits-decimal n, parse_digits-minus (decimal (suc m)))
sprint_inj (negsuc m) (negsuc n) e =
    let same = decimal_inj (suc m) (suc n) (tail-eq_of_cons-eq e) in ap negsuc (omega arith)
