-- ===== src/Prelude/TextOrder.antt =====
-- Go's order of strings is total and transitive, and looks at the first difference.
use Prim.Native.Nat.{◌<◌}
use Prim.Native.Char.{Char, code}
use Prim.Native.String.{String}
use Prim.Native.String.compare as order
use mathlib.Core.Path.{◌≡◌}
use mathlib.Core.Bool.{true, false}
use native.Mathlib.Omega.{arith}
use text.Mathlib.TextPositions.{compare_refl}
use lightpath.Prelude.Tests.{text_ge}

pub text_ge_refl : (s : String) → text_ge s s ≡ true
unfolding text_ge
text_ge_refl s = rw compare_refl

-- A text with the greater first character is greater, whatever follows.
pub text_ge_first :
    (c d : Char) (s t : String) → code d < code c → text_ge (String.◌∷◌ c s) (String.◌∷◌ d t) ≡ true
unfolding text_ge
text_ge_first c d s t h = rw (order.cons-cons c d s t) (ground arith)

ge_nil : (s : String) → text_ge s String.[] ≡ true
unfolding text_ge
ge_nil String.[] = text_ge_refl String.[]
ge_nil (String.◌∷◌ c s) = rw (order.cons-nil c s)

nil_ge_cons : (d : Char) (t : String) → text_ge String.[] (String.◌∷◌ d t) ≡ false
unfolding text_ge
nil_ge_cons d t = rw (order.nil-cons d t)

pub text_ge_trans : (s t u : String) → text_ge s t ≡ true → text_ge t u ≡ true → text_ge s u ≡ true
unfolding text_ge
text_ge_trans s t String.[] p q = ge_nil s
text_ge_trans s String.[] (String.◌∷◌ e u) p q = cc (nil_ge_cons e u)
text_ge_trans String.[] (String.◌∷◌ d t) (String.◌∷◌ e u) p q = cc (nil_ge_cons d t)
text_ge_trans (String.◌∷◌ c s) (String.◌∷◌ d t) (String.◌∷◌ e u) p q = ground (
  arith,
  order.cons-cons c d s t,
  order.cons-cons d e t u,
  order.cons-cons c e s u,
  text_ge_trans s t u,
)

-- One of two texts is at least the other.
pub text_ge_total : (s t : String) → text_ge s t ≡ false → text_ge t s ≡ true
unfolding text_ge
text_ge_total s String.[] h = cc (ge_nil s)
text_ge_total String.[] (String.◌∷◌ d t) h = ge_nil (String.◌∷◌ d t)
text_ge_total (String.◌∷◌ c s) (String.◌∷◌ d t) h =
    ground (arith, order.cons-cons c d s t, order.cons-cons d c t s, text_ge_total s t)
