-- ===== src/Runtime/Report/Whole.antt =====
-- The status file of src/runtime/status.py as a reader sees it.
use sensorctl.Prelude.{
  ℕ, ◌≡◌, refl, ap, subst, sym, ◌∙◌, ◌⊎◌, inl, inr, String, Option, some, List, [], ◌∷◌, if-cases,
  Exception, Result, ok, err,
}
use sensorctl.Prelude.Exec.{Exec, >>=-cases}
use sensorctl.Config.Paths.{FilePath}
use sensorctl.Runtime.Queue.{Shared}
use sensorctl.Runtime.Report.{Snapshot, with_suffix, FileSystem, Round, payload, write, loop, run}

-- The file system on a file and another that replaces it: no call but the replacement touches the
-- file, and that happens at once or not at all.
pub record IsAtomic (F : FileSystem) (path other : FilePath) : Type 0 where
  pub parent_keeps : (f : F.State) → F.look path (F.make_parent path f).1 ≡ F.look path f
  pub write_keeps :
      (text : String) (f : F.State) → F.look path (F.write_text other text f).1 ≡ F.look path f
  pub write_ok :
      (text : String) (f : F.State)
      → (F.write_text other text f).0 ≡ ok tt
      → F.look other (F.write_text other text f).1 ≡ some text
  pub replace_ok :
      (f : F.State)
      → (F.replace other path f).0 ≡ ok tt
      → F.look path (F.replace other path f).1 ≡ F.look other f
  pub replace_err :
      (f : F.State) (e : Exception)
      → (F.replace other path f).0 ≡ err e
      → F.look path (F.replace other path f).1 ≡ F.look path f

module _ (F : FileSystem) (dumps : Snapshot → String) (path : FilePath) (capacity : ℕ)
    (atomic : IsAtomic F path (with_suffix path ".tmp")) where
  -- After a write that returns the file is the new document, after one that raises it is as before.
  abbrev pub Written : String → F.State → Result (Unit {0}) × F.State → Type 0
  Written text f (ok u, f') = F.look path f' ≡ some text
  Written text f (err e, f') = F.look path f' ≡ F.look path f

  write-Written :
      (s : Shared) (now : String) (f : F.State)
      → Written (payload F dumps path capacity s now) f (write F dumps path capacity s now f)
  unfolding write
  write-Written s now f =
      >>=-cases (Written text f) (F.make_parent path) _ f
        (λ _ _.
          >>=-cases (Written text f) (F.write_text other text) _ f1
            (λ _ wrote. replaced (F.replace other path f2) refl (atomic.write_ok text f1 wrote))
            (λ e _. atomic.write_keeps text f1 ∙ atomic.parent_keeps f))
        (λ e _. atomic.parent_keeps f)
    where
      other : FilePath
      other = with_suffix path ".tmp"

      text : String
      text = payload F dumps path capacity s now

      f1 : F.State
      f1 = (F.make_parent path f).1

      f2 : F.State
      f2 = (F.write_text other text f1).1

      replaced :
          (r : Result (Unit {0}) × F.State)
          → F.replace other path f2 ≡ r
          → F.look other f2 ≡ some text
          → Written text f r
      replaced (ok u, f') e h =
          sym (ap (λ (p : Result (Unit {0}) × F.State). F.look path p.1) e)
          ∙ (atomic.replace_ok f2 (ap (λ (p : Result (Unit {0}) × F.State). p.0) e) ∙ h)
      replaced (err x, f') e h =
          sym (ap (λ (p : Result (Unit {0}) × F.State). F.look path p.1) e)
          ∙ (atomic.replace_err f2 x (ap (λ (p : Result (Unit {0}) × F.State). p.0) e)
              ∙ (atomic.write_keeps text f1 ∙ atomic.parent_keeps f))

  -- The content is the document of one of the rounds.
  abbrev pub IsOneOf : Option String → List Round → Type 0
  IsOneOf content [] = ⊥
  IsOneOf content (r ∷ rounds) =
      (content ≡ some (payload F dumps path capacity r.shared r.now)) ⊎ IsOneOf content rounds

  abbrev pub OldOrWhole : List Round → F.State → F.State → Type 0
  OldOrWhole rounds f f' = (F.look path f' ≡ F.look path f) ⊎ IsOneOf (F.look path f') rounds

  Written-first :
      (r : Round) (rounds : List Round) (f : F.State) (result : Result (Unit {0}) × F.State)
      → Written (payload F dumps path capacity r.shared r.now) f result
      → OldOrWhole (r ∷ rounds) f result.1
  Written-first r rounds f (ok u, f') h = inr (inl h)
  Written-first r rounds f (err e, f') h = inl h

  after_first :
      (r : Round) (rounds : List Round) (f f1 f2 : F.State)
      → OldOrWhole (r ∷ rounds) f f1
      → OldOrWhole rounds f1 f2
      → OldOrWhole (r ∷ rounds) f f2
  after_first r rounds f f1 f2 (inl h) (inl k) = inl (k ∙ h)
  after_first r rounds f f1 f2 (inr (inl h)) (inl k) = inr (inl (k ∙ h))
  after_first r rounds f f1 f2 (inr (inr h)) (inl k) =
      inr (inr (subst (λ c. IsOneOf c rounds) (sym k) h))
  after_first r rounds f f1 f2 h (inr k) = inr (inr k)

  loop-OldOrWhole :
      (rounds : List Round) (f : F.State)
      → OldOrWhole rounds f (loop F dumps path capacity rounds f).1
  unfolding loop
  loop-OldOrWhole [] f = inl refl
  loop-OldOrWhole (r ∷ rounds) f =
      let first = Written-first r rounds f _ (write-Written r.shared r.now f) in
      let f1 = (write F dumps path capacity r.shared r.now f).1 in
      let rest = loop-OldOrWhole rounds f1 in
      if-cases {A = Exec F.State (Unit {0})} (λ m. OldOrWhole (r ∷ rounds) f (m f).1) r.is_stopped _
        _ (λ _. inl refl)
        (λ _.
          >>=-cases (λ (p : Result (Unit {0}) × F.State). OldOrWhole (r ∷ rounds) f p.1)
            (write F dumps path capacity r.shared r.now) _ f
            (λ _ _. after_first r rounds f f1 _ first rest) (λ _ _. first))

  -- However the thread ends and whichever calls of the file system fail, a reader of the status file
  -- finds either what was there before or the whole document of one of the rounds: if the
  -- replacement of the file is atomic.
  pub run-OldOrWhole :
      (rounds : List Round) (f : F.State)
      → OldOrWhole rounds f (run F dumps path capacity rounds f).1
  unfolding run
  run-OldOrWhole rounds f = loop-OldOrWhole rounds f
