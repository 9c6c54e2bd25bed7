-- ===== src/Hardware/Bmp280/Calibration/Layout.antt =====
-- The layout of the calibration in the registers that src/hw/drivers/bmp280.py reads.
use sensorctl.Prelude.{
  ℕ, zero, suc, ◌+◌, ◌-◌, ◌/◌, ◌%◌, ◌<◌, ◌≡◌, refl, ap, ◌∙◌, List, [], ◌∷◌, arith, length, All,
  Result, ok,
}
use sensorctl.Prelude.Int.{ℤ, pos, negsuc}
use sensorctl.Hardware.Bmp280.Calibration.{Calibration, signed, words, of_words, unpack}

-- The word that stands for a number, and its two bytes.
abbrev pub unsigned : ℤ → ℕ
unsigned (pos n) = n
unsigned (negsuc n) = 65535 - n

abbrev pub bytes : List ℕ → List ℕ
bytes [] = []
bytes (w ∷ ws) = w % 256 ∷ w / 256 ∷ bytes ws

abbrev pub to_words : Calibration → List ℕ
to_words c =
    c.t1
    ∷ unsigned c.t2
    ∷ unsigned c.t3
    ∷ c.p1
    ∷ unsigned c.p2
    ∷ unsigned c.p3
    ∷ unsigned c.p4
    ∷ unsigned c.p5
    ∷ unsigned c.p6
    ∷ unsigned c.p7
    ∷ unsigned c.p8
    ∷ unsigned c.p9
    ∷ []

abbrev pub pack : Calibration → List ℕ
pack c = bytes (to_words c)

-- What a signed word can hold.
abbrev pub FitsSigned : ℤ → Type 0
FitsSigned (pos n) = n < 32768
FitsSigned (negsuc n) = n < 32768

pub record InRange (c : Calibration) : Type 0 where
  pub t1 : c.t1 < 65536
  pub t2 : FitsSigned c.t2
  pub t3 : FitsSigned c.t3
  pub p1 : c.p1 < 65536
  pub p2 : FitsSigned c.p2
  pub p3 : FitsSigned c.p3
  pub p4 : FitsSigned c.p4
  pub p5 : FitsSigned c.p5
  pub p6 : FitsSigned c.p6
  pub p7 : FitsSigned c.p7
  pub p8 : FitsSigned c.p8
  pub p9 : FitsSigned c.p9

abbrev pub IsByte : ℕ → Type 0
IsByte b = b < 256

abbrev IsWord : ℕ → Type 0
IsWord w = w < 65536

words-bytes : (ws : List ℕ) → words (bytes ws) ≡ ws
unfolding words
words-bytes [] = refl
words-bytes (w ∷ ws) = ground (arith, words-bytes ws)

signed-unsigned : (z : ℤ) → FitsSigned z → signed (unsigned z) ≡ z
signed-unsigned (pos n) h = ground arith
signed-unsigned (negsuc n) h = ground arith

unsigned-signed : (w : ℕ) → IsWord w → unsigned (signed w) ≡ w
unsigned-signed w h = ground arith

signed-FitsSigned : (w : ℕ) → IsWord w → FitsSigned (signed w)
signed-FitsSigned w h = ground arith

unpack-words : (bs : List ℕ) → length bs ≡ 24 → unpack bs ≡ of_words (words bs)
unfolding unpack
unpack-words bs h = ground (arith, h)

of_words-to_words : (c : Calibration) → InRange c → of_words (to_words c) ≡ ok c
unfolding of_words
of_words-to_words c r = rw (
  signed-unsigned c.t2 r.t2,
  signed-unsigned c.t3 r.t3,
  signed-unsigned c.p2 r.p2,
  signed-unsigned c.p3 r.p3,
  signed-unsigned c.p4 r.p4,
  signed-unsigned c.p5 r.p5,
  signed-unsigned c.p6 r.p6,
  signed-unsigned c.p7 r.p7,
  signed-unsigned c.p8 r.p8,
  signed-unsigned c.p9 r.p9,
)

-- Every calibration whose words fit is read back from its layout.
pub unpack-pack : (c : Calibration) → InRange c → unpack (pack c) ≡ ok c
unpack-pack c r =
    unpack-words (pack c) refl ∙ (ap of_words (words-bytes (to_words c)) ∙ of_words-to_words c r)

bytes-words :
    (bs : List ℕ) (n : ℕ)
    → length bs ≡ n + n
    → All IsByte bs
    → (bytes (words bs) ≡ bs) × (length (words bs) ≡ n) × All IsWord (words bs)
unfolding words
bytes-words [] n even h = (refl, omega arith, tt)
bytes-words (low ∷ []) n even h = absurd (omega arith)
bytes-words (low ∷ high ∷ rest) zero even h = absurd (omega arith)
bytes-words (low ∷ high ∷ rest) (suc n) even h =
    let (same, count, small) = bytes-words rest n (omega arith) h.1.1 in
    (ground (arith, same, h.0, h.1.0), omega (arith, count), (omega (arith, h.0, h.1.0), small))

-- What comes out of twelve words.
abbrev Reads : List ℕ → Result Calibration → Type 0
Reads ws r = (c : Calibration) × (r ≡ ok c) × (to_words c ≡ ws) × InRange c

of_words-Reads : (ws : List ℕ) → length ws ≡ 12 → All IsWord ws → Reads ws (of_words ws)
unfolding of_words
of_words-Reads (t1 ∷ t2 ∷ t3 ∷ p1 ∷ p2 ∷ p3 ∷ p4 ∷ p5 ∷ p6 ∷ p7 ∷ p8 ∷ p9 ∷ []) n
      (ht1, (ht2, (ht3, (hp1, (hp2, (hp3, (hp4, (hp5, (hp6, (hp7, (hp8, (hp9, _)))))))))))) =
    (
      _,
      refl,
      rw (
        unsigned-signed t2 ht2,
        unsigned-signed t3 ht3,
        unsigned-signed p2 hp2,
        unsigned-signed p3 hp3,
        unsigned-signed p4 hp4,
        unsigned-signed p5 hp5,
        unsigned-signed p6 hp6,
        unsigned-signed p7 hp7,
        unsigned-signed p8 hp8,
        unsigned-signed p9 hp9,
      ),
      record {
        t1 = ht1;
        t2 = signed-FitsSigned t2 ht2;
        t3 = signed-FitsSigned t3 ht3;
        p1 = hp1;
        p2 = signed-FitsSigned p2 hp2;
        p3 = signed-FitsSigned p3 hp3;
        p4 = signed-FitsSigned p4 hp4;
        p5 = signed-FitsSigned p5 hp5;
        p6 = signed-FitsSigned p6 hp6;
        p7 = signed-FitsSigned p7 hp7;
        p8 = signed-FitsSigned p8 hp8;
        p9 = signed-FitsSigned p9 hp9;
      },
    )
of_words-Reads _ n h = absurd (omega arith)

-- Every buffer of 24 bytes is read as a calibration in range, and it is the layout of that calibration.
pub unpack-Reads :
    (bs : List ℕ)
    → length bs ≡ 24
    → All IsByte bs
    → (c : Calibration) × (unpack bs ≡ ok c) × (pack c ≡ bs) × InRange c
unpack-Reads bs count small =
    let (same, n, fit) = bytes-words bs 12 count small in
    let (c, read, back, range) = of_words-Reads (words bs) n fit in
    (c, unpack-words bs count ∙ read, ap bytes back ∙ same, range)
