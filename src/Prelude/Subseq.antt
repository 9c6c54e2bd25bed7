-- ===== src/Prelude/Subseq.antt =====
-- One list is another with elements left out: the order is kept.
use mathlib.Core.List.{List, [], ◌∷◌, ◌++◌}

module _ {ℓ} {A : Type ℓ} where
  pub data Subseq : List A → List A → Type ℓ where
    done : Subseq [] []
    keep : {x : A} {xs ys : List A} → Subseq xs ys → Subseq (x ∷ xs) (x ∷ ys)
    skip : {x : A} {xs ys : List A} → Subseq xs ys → Subseq xs (x ∷ ys)

  pub Subseq-nil : (ys : List A) → Subseq [] ys
  Subseq-nil [] = done
  Subseq-nil (y ∷ ys) = skip (Subseq-nil ys)

  pub Subseq-refl : (xs : List A) → Subseq xs xs
  Subseq-refl [] = done
  Subseq-refl (x ∷ xs) = keep (Subseq-refl xs)

  pub Subseq-append :
      {xs ys : List A} (us vs : List A) → Subseq xs ys → Subseq us vs → Subseq (xs ++ us) (ys ++ vs)
  Subseq-append us vs done q = q
  Subseq-append us vs (keep p) q = keep (Subseq-append us vs p q)
  Subseq-append us vs (skip p) q = skip (Subseq-append us vs p q)

  -- What comes later may be left out.
  pub Subseq-more : {xs ys : List A} (vs : List A) → Subseq xs ys → Subseq xs (ys ++ vs)
  Subseq-more vs done = Subseq-nil vs
  Subseq-more vs (keep p) = keep (Subseq-more vs p)
  Subseq-more vs (skip p) = skip (Subseq-more vs p)
