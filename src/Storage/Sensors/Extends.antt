-- ===== src/Storage/Sensors/Extends.antt =====
-- How the tables of src/storage/repositories/sensors.py grow, and what stays found in them.
use mathlib.Core.List.{append_assoc, append-nil, map-append}
use sensorctl.Prelude.{
  ℕ, ◌≤◌, ◌<◌, ◌⊎◌, inl, inr, map, All, All-imp, IsIn, subst, ◌≡◌, refl, sym, ap, ◌∙◌, arith,
  String, Bool, true, false, some, List, [], ◌∷◌, ◌++◌, all, leb, ltb, ◌==◌, if◌then◌else◌,
}
use sensorctl.Prelude.Dict.{Dict, insert}
use sensorctl.Storage.Sensors.{InstanceRow, FieldRow, SensorTables, find_instance, field_ids}

-- No row refers to an instance that is still to come.
pub record IsNumbered (t : SensorTables) : Type 0 where
  pub instances_old : all (λ (r : InstanceRow). leb r.id t.last_instance) t.instances ≡ true
  pub fields_old : all (λ (f : FieldRow). leb f.sensor_instance_id t.last_instance) t.fields ≡ true

-- The numbers go up, all of them above `low`, and none is above `high`.
abbrev pub Ascends : ℕ → List ℕ → ℕ → Type 0
Ascends low [] high = low ≤ high
Ascends low (n ∷ ns) high = (low < n) × Ascends n ns high

abbrev pub instance_numbers : List InstanceRow → List ℕ
instance_numbers rows = map (λ (r : InstanceRow). r.id) rows

abbrev pub field_numbers : List FieldRow → List ℕ
field_numbers rows = map (λ (f : FieldRow). f.id) rows

-- Each field belongs to one of the instances.
abbrev pub BelongTo : List InstanceRow → List FieldRow → Type 0
BelongTo instances fields =
    All (λ (f : FieldRow). IsIn f.sensor_instance_id (instance_numbers instances)) fields

-- Instances were added at the end with new numbers, and fields of these instances only, with numbers
-- above the last one.
pub record Extends (t u : SensorTables) : Type 0 where
  pub instances : List InstanceRow
  pub fields : List FieldRow
  pub instances_are : u.instances ≡ t.instances ++ instances
  pub fields_are : u.fields ≡ t.fields ++ fields
  pub instances_ascend : Ascends t.last_instance (instance_numbers instances) u.last_instance
  pub fields_ascend : Ascends t.last_field (field_numbers fields) u.last_field
  pub of_added : BelongTo instances fields
  pub fields_new : all (λ (f : FieldRow). ltb t.last_instance f.sensor_instance_id) fields ≡ true
  pub no_less : t.last_instance ≤ u.last_instance
  pub numbered : IsNumbered u

pub all_both :
    {A : Type 0} (p : A → Bool) (xs ys : List A)
    → all p xs ≡ true
    → all p ys ≡ true
    → all p (xs ++ ys) ≡ true
all_both p [] ys h k = k
all_both p (x ∷ xs) ys h k = ground (arith, h, all_both p xs ys (ground (arith, h)) k)

Ascends-lower : (a b c : ℕ) (ns : List ℕ) → a ≤ b → Ascends b ns c → Ascends a ns c
Ascends-lower a b c [] le h = omega (arith, le, h)
Ascends-lower a b c (n ∷ ns) le h = (omega (arith, le, h.0), h.1)

pub Ascends-append :
    (a b c : ℕ) (ms ns : List ℕ) → Ascends a ms b → Ascends b ns c → Ascends a (ms ++ ns) c
Ascends-append a b c [] ns h k = Ascends-lower a b c ns h k
Ascends-append a b c (m ∷ ms) ns h k = (h.0, Ascends-append m b c ms ns h.1 k)

pub IsIn-append : {A : Type 0} (x : A) (xs ys : List A) → IsIn x xs ⊎ IsIn x ys → IsIn x (xs ++ ys)
IsIn-append x [] ys (inl h) = absurd h
IsIn-append x [] ys (inr h) = h
IsIn-append x (y ∷ xs) ys (inl (inl e)) = inl e
IsIn-append x (y ∷ xs) ys (inl (inr h)) = inr (IsIn-append x xs ys (inl h))
IsIn-append x (y ∷ xs) ys (inr h) = inr (IsIn-append x xs ys (inr h))

pub All-append :
    {A : Type 0} (P : A → Type 0) (xs ys : List A) → All P xs → All P ys → All P (xs ++ ys)
All-append P [] ys h k = k
All-append P (x ∷ xs) ys h k = (h.0, All-append P xs ys h.1 k)

BelongTo-append :
    (before after : List InstanceRow) (fields more : List FieldRow)
    → BelongTo before fields
    → BelongTo after more
    → BelongTo (before ++ after) (fields ++ more)
BelongTo-append before after fields more h k =
    let both = map-append (λ (r : InstanceRow). r.id) before after in
    All-append _ fields more
      (All-imp _ _ fields
        (λ f m. subst (IsIn f.sensor_instance_id) (sym both) (IsIn-append _ _ _ (inl m))) h)
      (All-imp _ _ more
        (λ f m. subst (IsIn f.sensor_instance_id) (sym both) (IsIn-append _ _ _ (inr m))) k)

newer :
    (m n : ℕ) (fs : List FieldRow)
    → m ≤ n
    → all (λ (f : FieldRow). ltb n f.sensor_instance_id) fs ≡ true
    → all (λ (f : FieldRow). ltb m f.sensor_instance_id) fs ≡ true
newer m n [] le h = refl
newer m n (f ∷ fs) le h = ground (arith, h, le, newer m n fs le (ground (arith, h)))

pub nothing-Extends : (t : SensorTables) → IsNumbered t → Extends t t
nothing-Extends t n = record {
  instances = [];
  fields = [];
  instances_are = sym (append-nil t.instances);
  fields_are = sym (append-nil t.fields);
  instances_ascend = omega arith;
  fields_ascend = omega arith;
  of_added = tt;
  fields_new = refl;
  no_less = omega arith;
  numbered = n;
}

pub then-Extends : (t u v : SensorTables) → Extends t u → Extends u v → Extends t v
then-Extends t u v a b = record {
  instances = a.instances ++ b.instances;
  fields = a.fields ++ b.fields;
  instances_are =
      b.instances_are
      ∙ (ap (λ l. l ++ b.instances) a.instances_are
          ∙ append_assoc t.instances a.instances b.instances);
  fields_are =
      b.fields_are
      ∙ (ap (λ l. l ++ b.fields) a.fields_are ∙ append_assoc t.fields a.fields b.fields);
  instances_ascend =
      subst (λ l. Ascends t.last_instance l v.last_instance)
        (sym (map-append (λ (r : InstanceRow). r.id) a.instances b.instances))
        (Ascends-append _ u.last_instance _ _ _ a.instances_ascend b.instances_ascend);
  fields_ascend =
      subst (λ l. Ascends t.last_field l v.last_field)
        (sym (map-append (λ (f : FieldRow). f.id) a.fields b.fields))
        (Ascends-append _ u.last_field _ _ _ a.fields_ascend b.fields_ascend);
  of_added = BelongTo-append a.instances b.instances a.fields b.fields a.of_added b.of_added;
  fields_new =
      all_both _ a.fields b.fields a.fields_new
        (newer t.last_instance u.last_instance b.fields a.no_less b.fields_new);
  no_less = omega (arith, a.no_less, b.no_less);
  numbered = b.numbered;
}

-- What is found stays found, and its fields stay.
find_instance-append :
    (k f : String) (xs ys : List InstanceRow) (id : ℕ)
    → find_instance k f xs ≡ some id
    → find_instance k f (xs ++ ys) ≡ some id
unfolding find_instance
find_instance-append k f [] ys id h = cc
find_instance-append k f (x ∷ xs) ys id h = ground (arith, h, find_instance-append k f xs ys id)

found_old :
    (k f : String) (xs : List InstanceRow) (last id : ℕ)
    → all (λ (r : InstanceRow). leb r.id last) xs ≡ true
    → find_instance k f xs ≡ some id
    → id ≤ last
unfolding find_instance
found_old k f [] last id old h = cc
found_old k f (x ∷ xs) last id old h = ground (arith, old, h, found_old k f xs last id)

field_ids-new :
    (id last : ℕ) (fs : List FieldRow) (d : Dict ℕ)
    → id ≤ last
    → all (λ (f : FieldRow). ltb last f.sensor_instance_id) fs ≡ true
    → field_ids id fs d ≡ d
unfolding field_ids
field_ids-new id last [] d le h = refl
field_ids-new id last (f ∷ fs) d le h =
    let other : (f.sensor_instance_id == id) ≡ false = ground (arith, h, le) in
    ap (λ b. field_ids id fs (if b then insert f.name f.id d else d)) other
    ∙ field_ids-new id last fs d le (ground (arith, h))

field_ids-append :
    (id last : ℕ) (xs ys : List FieldRow) (d : Dict ℕ)
    → id ≤ last
    → all (λ (f : FieldRow). ltb last f.sensor_instance_id) ys ≡ true
    → field_ids id (xs ++ ys) d ≡ field_ids id xs d
unfolding field_ids
field_ids-append id last [] ys d le h = field_ids-new id last ys d le h
field_ids-append id last (x ∷ xs) ys d le h = field_ids-append id last xs ys _ le h

-- An identity that was found has the same id and the same fields in the tables that grew.
pub Extends-found :
    (t u : SensorTables) (k f : String) (id : ℕ)
    → IsNumbered t
    → Extends t u
    → find_instance k f t.instances ≡ some id
    → (find_instance k f u.instances ≡ some id)
      × (field_ids id u.fields [] ≡ field_ids id t.fields [])
Extends-found t u k f id n x h = (
  ap (find_instance k f) x.instances_are ∙ find_instance-append k f t.instances x.instances id h,
  ap (λ l. field_ids id l []) x.fields_are
      ∙ field_ids-append id t.last_instance t.fields x.fields []
          (found_old k f t.instances t.last_instance id n.instances_old h) x.fields_new,
)
