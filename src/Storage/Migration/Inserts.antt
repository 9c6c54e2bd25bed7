-- ===== src/Storage/Migration/Inserts.antt =====
-- `INSERT INTO ... SELECT` of
-- src/storage/migrations/versions/0002_local_millisecond_timestamps.py on rows that do not clash.
use sensorctl.Prelude.{
  ◌≡◌, refl, arith, Bool, true, false, List, [], ◌∷◌, any, apart, map, Result, ok, err, forbid,
  integrity_error, ◌>>=◌, ◌>>◌,
}
use sensorctl.Storage.Migration.Legacy.{insert_rows}

-- The rows are what the old ones became, one by one and in order.
abbrev pub Become : {A B : Type 0} → (A → B → Type 0) → List A → List B → Type 0
Become P [] [] = Unit
Become P (x ∷ xs) (y ∷ ys) = P x y × Become P xs ys
Become P _ _ = ⊥

pub map-Become :
    {A B K : Type 0} (P : A → B → Type 0) (f : A → K) (g : B → K) (xs : List A) (ys : List B)
    → ((x : A) (y : B) → P x y → g y ≡ f x)
    → Become P xs ys
    → map g ys ≡ map f xs
map-Become P f g [] [] same h = refl
map-Become P f g [] (y ∷ ys) same h = absurd h
map-Become P f g (x ∷ xs) [] same h = absurd h
map-Become P f g (x ∷ xs) (y ∷ ys) same h = rw (same x y h.0, map-Become P f g xs ys same h.1) refl

module _ {A B K : Type 0} (clash : K → K → Bool) (key : B → K) (convert : A → Result B)
    (P : A → B → Type 0) (old_key : A → K) (bad : A → Bool) where
  -- A copy that is refused is refused for a bad row, by a constraint.
  abbrev pub InsertEnd : List A → Result (List B) → Type 0
  InsertEnd xs (ok rows) = Become P xs rows × (any bad xs ≡ false)
  InsertEnd xs (err e) = (e.kind ≡ integrity_error) × (any bad xs ≡ true)

  -- What the conversion of one row has to give.
  abbrev pub OneEnd : A → Result B → Type 0
  OneEnd x (ok row) = P x row × (key row ≡ old_key x) × (bad x ≡ false)
  OneEnd x (err e) = (e.kind ≡ integrity_error) × (bad x ≡ true)

  -- Where the old rows do not clash, neither do the new ones.
  pub insert_rows-InsertEnd :
      (keys : List K) (xs : List A)
      → ((x : A) → OneEnd x (convert x))
      → apart clash keys (map old_key xs) ≡ true
      → InsertEnd xs (insert_rows clash key convert keys xs)
  unfolding insert_rows
  insert_rows-InsertEnd keys [] one fresh = (tt, refl)
  insert_rows-InsertEnd keys (x ∷ xs) one fresh =
      step (convert x) (one x) (λ row same. insert_rows-InsertEnd (key row ∷ keys) xs one same)
    where
      grow :
          (row : B) (r : Result (List B))
          → P x row
          → bad x ≡ false
          → InsertEnd xs r
          → InsertEnd (x ∷ xs) (r >>= λ rows. ok (row ∷ rows))
      grow row (ok rows) p good (all_become, rest) = ((p, all_become), rw (good, rest) refl)
      grow row (err e) p good (kind, rest) = (kind, rw (good, rest) refl)

      step :
          (r : Result B)
          → OneEnd x r
          → ((row : B)
              → apart clash (key row ∷ keys) (map old_key xs) ≡ true
              → InsertEnd xs (insert_rows clash key convert (key row ∷ keys) xs))
          → InsertEnd (x ∷ xs) (
              r >>= λ row.
              forbid (any (clash (key row)) keys) integrity_error "UNIQUE constraint failed"
              >> (insert_rows clash key convert (key row ∷ keys) xs >>= λ rows. ok (row ∷ rows)))
      step (err e) (kind, is_bad) rest = (kind, rw is_bad refl)
      step (ok row) (p, same, good) rest =
          let free : any (clash (key row)) keys ≡ false = rw same (ground (arith, fresh)) in
          rw free (
            grow row (insert_rows clash key convert (key row ∷ keys) xs) p good
              (rest row (rw same (ground (arith, fresh)))))

-- A copy of rows that do not clash gives the same rows.
pub insert_rows-same :
    {A K : Type 0} (clash : K → K → Bool) (key : A → K) (keys : List K) (xs : List A)
    → apart clash keys (map key xs) ≡ true
    → insert_rows clash key ok keys xs ≡ ok xs
unfolding insert_rows
insert_rows-same clash key keys [] fresh = refl
insert_rows-same clash key keys (x ∷ xs) fresh =
    let free : any (clash (key x)) keys ≡ false = ground (arith, fresh) in
    rw (free, insert_rows-same clash key (key x ∷ keys) xs (ground (arith, fresh))) refl
