-- ===== src/Hardware/Bmp280/Calibration.antt =====
-- The calibration words of src/hw/drivers/bmp280.py: `_Calibration` and `struct.unpack` of its format,
-- twelve little-endian words of which the first and the fourth have no sign.
pub mod Layout
use sensorctl.Prelude.{
  ℕ, ◌+◌, ◌-◌, ◌*◌, ◌/◌, ◌%◌, ◌<◌, ◌≡◌, refl, ap, String, Bool, true, List, [], ◌∷◌, arith, ltb,
  if◌then◌else◌, length, ◌==◌, Result, ok, raise, struct_error,
}
use sensorctl.Prelude.Int.{ℤ, pos, negsuc}

pub record Calibration : Type 0 where
  pub t1 : ℕ
  pub t2 : ℤ
  pub t3 : ℤ
  pub p1 : ℕ
  pub p2 : ℤ
  pub p3 : ℤ
  pub p4 : ℤ
  pub p5 : ℤ
  pub p6 : ℤ
  pub p7 : ℤ
  pub p8 : ℤ
  pub p9 : ℤ

-- The code `H`: two bytes, the low one first; and `h`, with the sign in the highest bit.
abbrev pub word : ℕ → ℕ → ℕ
word low high = high * 256 + low

abbrev pub signed : ℕ → ℤ
signed w = if ltb w 32768 then pos w else negsuc (65535 - w)

-- The words of a buffer.
unfoldable pub words : List ℕ → List ℕ
words [] = []
words (low ∷ []) = []
words (low ∷ high ∷ rest) = word low high ∷ words rest

-- `_Calibration(*words)`
unfoldable pub of_words : List ℕ → Result Calibration
of_words (t1 ∷ t2 ∷ t3 ∷ p1 ∷ p2 ∷ p3 ∷ p4 ∷ p5 ∷ p6 ∷ p7 ∷ p8 ∷ p9 ∷ []) = ok (record {
  t1 = t1;
  t2 = signed t2;
  t3 = signed t3;
  p1 = p1;
  p2 = signed p2;
  p3 = signed p3;
  p4 = signed p4;
  p5 = signed p5;
  p6 = signed p6;
  p7 = signed p7;
  p8 = signed p8;
  p9 = signed p9;
})
of_words _ = raise struct_error "wrong number of words"

-- `_Calibration(*struct.unpack("<HhhHhhhhhhhh", buffer))`
unfoldable pub unpack : List ℕ → Result Calibration
unfolding words of_words
unpack buffer =
    if length buffer == 24
    then of_words (words buffer)
    else raise struct_error "unpack requires a buffer of 24 bytes"
