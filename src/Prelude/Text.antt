-- ===== src/Prelude/Text.antt =====
-- Texts: Python's `str` is the native `String`, walked by its own constructors.
use Prim.Native.Nat.{ℕ, zero, suc, ◌-◌, ◌/◌, ◌%◌, Ordering}
use Prim.Native.Char.{Char, code}
use Prim.Native.String.{String, len, slice, compare as compare_text}
use mathlib.Core.Bool.{Bool, true, false, not, ◌&&◌, cond}
use mathlib.Core.List.{List, [], ◌∷◌}
use mathlib.Core.Logic.{◌≢◌}
use mathlib.Core.Option.{Option, none, some}
use mathlib.Core.Path.{◌≡◌, refl}
use sensorctl.Prelude.Tests.{◌==◌, ltb, leb}
pub use Prim.Native.String.{◌++◌ as ◌<>◌}
pub use text.Mathlib.Text.{◌==◌ as str_eq, starts_with}

digit_text : ℕ → String
digit_text d =
    if_zero (d - 0) "0"
      (if_zero (d - 1) "1" (if_zero (d - 2) "2" (if_zero (d - 3) "3" (if_zero (d - 4) "4" upper))))
  where
    if_zero : ℕ → String → String → String
    if_zero zero s t = s
    if_zero (suc n) s t = t

    upper : String
    upper =
        if_zero (d - 5) "5" (if_zero (d - 6) "6" (if_zero (d - 7) "7" (if_zero (d - 8) "8" "9")))

-- The digits of a number in front of a text. The fuel is the number itself: each round divides by 10.
show_digits : ℕ → ℕ → String → String
show_digits zero n acc = digit_text (n % 10) <> acc
show_digits (suc fuel) n acc =
    let front = digit_text (n % 10) <> acc in
    let rest = show_digits fuel (n / 10) front in elim (n / 10) [ zero ↦ front | suc _ ↦ rest ]

-- `str(n)`, as an f-string writes a number.
unfoldable pub show : ℕ → String
unfolding show_digits digit_text
show n = show_digits n n ""

show_runs : show 86_400_000 ≡ "86400000"
unfolding show
show_runs = refl

-- `not s`
abbrev pub is_blank : String → Bool
is_blank String.[] = true
is_blank (String.◌∷◌ c s) = false

-- `s.removeprefix(p)`
abbrev pub remove_prefix : String → String → String
remove_prefix s p = cond (starts_with s p) (slice s (len p) (len s)) s

abbrev extend : Char → List String → List String
extend c [] = String.◌∷◌ c String.[] ∷ []
extend c (t ∷ ts) = String.◌∷◌ c t ∷ ts

abbrev extend_unless : Bool → Char → List String → List String
extend_unless true c parts = String.[] ∷ parts
extend_unless false c parts = extend c parts

-- `s.split(sep)` for a separator of one character, given by its code point.
unfoldable pub split : ℕ → String → List String
split sep String.[] = String.[] ∷ []
split sep (String.◌∷◌ c s) = extend_unless (code c == sep) c (split sep s)

split_runs : split b'/' "/dev//x" ≡ "" ∷ "dev" ∷ "" ∷ "x" ∷ []
unfolding split
split_runs = refl

-- Whether one character counts as a digit. Those outside ASCII are a table of Unicode, which the
-- caller supplies.
unfoldable pub is_digit_code : (ℕ → Bool) → ℕ → Bool
is_digit_code unicode_digit c = cond (ltb c 128) (leb b'0' c && leb c b'9') (unicode_digit c)

unfoldable pub all_digits : (ℕ → Bool) → String → Bool
unfolding is_digit_code
all_digits unicode_digit String.[] = true
all_digits unicode_digit (String.◌∷◌ c s) =
    is_digit_code unicode_digit (code c) && all_digits unicode_digit s

-- `s.isdigit()`, which is false of the empty text.
unfoldable pub is_digits : (ℕ → Bool) → String → Bool
unfolding all_digits
is_digits unicode_digit s = not (is_blank s) && all_digits unicode_digit s

is_less : Ordering → Bool
is_less Ordering.lt = true
is_less _ = false

-- `s < t`
unfoldable pub text_less : String → String → Bool
unfolding is_less
text_less s t = is_less (compare_text s t)

smaller : String → Option String → String
smaller s none = s
smaller s (some t) = cond (is_less (compare_text s t)) s t

-- `sorted(xs)[0]`, if there is one.
unfoldable pub least : List String → Option String
unfolding smaller is_less
least [] = none
least (s ∷ ss) = some (smaller s (least ss))

least_runs : least ("b" ∷ "a" ∷ "c" ∷ []) ≡ some "a"
unfolding least
least_runs = refl

-- Why `least` answers: it does so exactly on a list with an element.
pub least-cons : (s : String) (ss : List String) → least (s ∷ ss) ≢ none
unfolding least
least-cons s ss h = cc

-- `sep.join(xs)`
unfoldable pub join : String → List String → String
join sep [] = ""
join sep (s ∷ []) = s
join sep (s ∷ t ∷ ss) = s <> (sep <> join sep (t ∷ ss))

join_runs : join ", " ("a" ∷ "b" ∷ []) ≡ "a, b"
unfolding join
join_runs = refl
