-- ===== src/Storage/Migration/Current.antt =====
-- What `upgrade_database` of src/storage/migration.py accepts, and what it leaves.
use sensorctl.Prelude.{
  ℕ, ◌==◌, ap, ◌∙◌, ==_iff, ◌≡◌, refl, sym, subst, ◌⊎◌, inl, inr, arith, String, true, false, not,
  ◌||◌, Option, none, some, List, Bool-cases, if-cases, Exception, Result, ok, err, Result-cases,
  runtime_error,
}
use sensorctl.Prelude.{◌>>=◌ as ◌>>>=◌, ◌>>◌ as ◌>>>◌}
use sensorctl.Prelude.Dict.{Dict, has}
use sensorctl.Prelude.Exec.{>>=-cases, >>=-through}
use sensorctl.Storage.Migration.{
  Schema, base, head, legacy_columns, current_columns, check_tables, legacy_missing, legacy_unknown,
  legacy_version, legacy_revision, validate_current_schema, remove_legacy_version_table,
}
use sensorctl.Storage.Migration.Upgrade.{
  Connection, Engine, on_schema, observe, commit_unless, commit_schema, stamp_if, complete_upgrade,
  upgrade_connection, dispose, upgrade_database,
}
use sensorctl.Storage.Migration.Checks.{
  Conforms, OnlyRuntime, check_tables-Conforms, check_tables-OnlyRuntime, Conforms-check_tables,
}
use sensorctl.Storage.Migration.Dropped.{
  IsCurrent, validate-IsCurrent, UpgradeEnd, removed-UpgradeEnd,
}

-- A database of the first version, and of the second, before there was Alembic.
abbrev pub IsFirst : Schema → Type 0
IsFirst s = (s.version ≡ some 1) × Conforms s legacy_columns

abbrev pub IsSecond : Schema → Type 0
IsSecond s = (s.version ≡ some 2) × Conforms s current_columns

-- No legacy database; or one of a known version that has the tables of that version; or neither.
abbrev pub LegacyEnd : Schema → Result (Option String) → Type 0
LegacyEnd s (ok none) =
    (has "alembic_version" s.tables ≡ true) ⊎ (has "schema_version" s.tables ≡ false)
LegacyEnd s (ok (some revision)) =
    (has "alembic_version" s.tables ≡ false)
    × (has "schema_version" s.tables ≡ true)
    × (((revision ≡ "0001") × IsFirst s) ⊎ ((revision ≡ "0002") × IsSecond s))
LegacyEnd s (err e) =
    (has "alembic_version" s.tables ≡ false)
    × (has "schema_version" s.tables ≡ true)
    × (e.kind ≡ runtime_error)
    × (IsFirst s → ⊥)
    × (IsSecond s → ⊥)

-- The same of a database that has the table `schema_version` and is not Alembic's.
abbrev VersionEnd : Schema → Result (Option String) → Type 0
VersionEnd s (ok none) = ⊥
VersionEnd s (ok (some revision)) =
    ((revision ≡ "0001") × IsFirst s) ⊎ ((revision ≡ "0002") × IsSecond s)
VersionEnd s (err e) = (e.kind ≡ runtime_error) × (IsFirst s → ⊥) × (IsSecond s → ⊥)

VersionEnd-LegacyEnd :
    (s : Schema) (r : Result (Option String))
    → has "alembic_version" s.tables ≡ false
    → has "schema_version" s.tables ≡ true
    → VersionEnd s r
    → LegacyEnd s r
VersionEnd-LegacyEnd s (ok none) absent there h = absurd h
VersionEnd-LegacyEnd s (ok (some revision)) absent there h = (absent, there, h)
VersionEnd-LegacyEnd s (err e) absent there (kind, first, second) =
    (absent, there, kind, first, second)

-- The check of the tables of one version, which is the one that the database has.
checked-VersionEnd :
    (s : Schema) (expected : Dict (List String)) (revision : String)
    → (Conforms s expected → ((revision ≡ "0001") × IsFirst s) ⊎ ((revision ≡ "0002") × IsSecond s))
    → ((Conforms s expected → ⊥) → (IsFirst s → ⊥) × (IsSecond s → ⊥))
    → VersionEnd s (check_tables legacy_missing legacy_unknown s expected >>> ok (some revision))
checked-VersionEnd s expected revision fits fails =
    elim (Result-cases (check_tables legacy_missing legacy_unknown s expected)) [
      | inl (u, good) ↦
          subst (λ r. VersionEnd s (r >>> ok (some revision))) (sym good)
            (fits (check_tables-Conforms legacy_missing legacy_unknown s expected good))
      | inr (e, bad) ↦
          let (first, second) =
            fails λ h. cc (bad, Conforms-check_tables legacy_missing legacy_unknown s expected h) in
          subst (λ r. VersionEnd s (r >>> ok (some revision))) (sym bad)
            (
              subst OnlyRuntime bad
                  (check_tables-OnlyRuntime legacy_missing legacy_unknown s expected),
              first,
              second,
            )
    ]

other_version :
    (s : Schema) (v n : ℕ) → s.version ≡ some v → (v == n) ≡ false → s.version ≡ some n → ⊥
other_version s v n here other there = let same : v ≡ n = cc in ground (arith, same, other)

legacy_version-VersionEnd :
    (s : Schema) (version : Option ℕ)
    → s.version ≡ version
    → VersionEnd s (
        legacy_version version >>>= λ expected.
        check_tables legacy_missing legacy_unknown s expected.0 >>> ok (some expected.1))
legacy_version-VersionEnd s none here =
    (refl, λ first. cc (here, first.0), λ second. cc (here, second.0))
legacy_version-VersionEnd s (some v) here =
    if-cases (λ r. VersionEnd s (r >>>= next)) (v == 1) _ _
      (λ one.
        let version : s.version ≡ some 1 = here ∙ ap some ((==_iff v 1).0 one) in
        checked-VersionEnd s legacy_columns base (λ h. inl (refl, (version, h)))
          (λ unfit. (λ first. unfit first.1, λ second. cc (version, second.0))))
      (λ other.
        if-cases (λ r. VersionEnd s (r >>>= next)) (v == 2) _ _
          (λ two.
            let version : s.version ≡ some 2 = here ∙ ap some ((==_iff v 2).0 two) in
            checked-VersionEnd s current_columns head (λ h. inr (refl, (version, h)))
              (λ unfit. (λ first. cc (version, first.0), λ second. unfit second.1)))
          (λ neither. (
            refl,
            λ first. other_version s v 1 here other first.0,
            λ second. other_version s v 2 here neither second.0,
          )))
  where
    next : Dict (List String) × String → Result (Option String)
    next expected = check_tables legacy_missing legacy_unknown s expected.0 >>> ok (some expected.1)

-- A database that Alembic manages, or that has no table `schema_version`, is left to Alembic. Of the
-- others, one of version 1 whose four tables have the columns of that version gets the revision 0001,
-- and one of version 2 with the current columns 0002; every other is refused with `RuntimeError`.
pub legacy_revision-LegacyEnd : (s : Schema) → LegacyEnd s (legacy_revision s)
unfolding legacy_revision
legacy_revision-LegacyEnd s =
    let managed = has "alembic_version" s.tables in
    let versioned = has "schema_version" s.tables in
    if-cases (LegacyEnd s) (managed || not versioned) (ok none) _
      (λ left. elim (Bool-cases managed) [
        | inl there ↦ inl there
        | inr absent ↦ inr (ground (arith, left, absent))
      ])
      (λ legacy.
        VersionEnd-LegacyEnd s _ (ground (arith, legacy)) (ground (arith, legacy))
          (legacy_version-VersionEnd s s.version refl))

-- The same of the file, with the pragma on.
abbrev FileCurrent : Result (Unit {0}) × Connection → Type 0
FileCurrent (ok u, c) =
    UpgradeEnd (ok u, c.in_file) × (c.in_file ≡ c.schema) × (c.foreign_keys ≡ true)
FileCurrent (err e, c) = Unit

commit_unless-FileCurrent :
    (o : Option Exception) (c : Connection)
    → IsCurrent c.schema × (has "schema_version" c.schema.tables ≡ false)
    → FileCurrent (commit_unless o (record c { foreign_keys = true }))
commit_unless-FileCurrent none c h = (h, refl, refl)
commit_unless-FileCurrent (some e) c h = tt

complete_upgrade-FileCurrent : (g : Engine) (c : Connection) → FileCurrent (complete_upgrade g c)
unfolding complete_upgrade
complete_upgrade-FileCurrent g c =
    >>=-cases FileCurrent (observe validate_current_schema) _ c
      (λ _ good.
        let removed = removed-UpgradeEnd c.schema (validate-IsCurrent c.schema good) in
        >>=-through (RemoveEnd) FileCurrent (on_schema remove_legacy_version_table) _ c
          (on_schema-RemoveEnd (remove_legacy_version_table c.schema) removed)
          (λ _ t h.
            >>=-through RemoveEnd FileCurrent (commit_schema g) _ t
              (commit_unless-RemoveEnd (g.refuse_commit t) t h)
              (λ _ v k.
                commit_unless-FileCurrent (g.refuse_commit (record v { foreign_keys = true })) v k)
              (λ _ _ _. tt))
          (λ _ _ _. tt))
      (λ _ _. tt)
  where
    RemoveEnd : Result (Unit {0}) × Connection → Type 0
    RemoveEnd (r, d) = UpgradeEnd (r, d.schema)

    on_schema-RemoveEnd :
        (q : Result (Unit {0}) × Schema) → UpgradeEnd q → RemoveEnd (q.0, record c { schema = q.1 })
    on_schema-RemoveEnd q h = h

    commit_unless-RemoveEnd :
        (o : Option Exception) (t : Connection)
        → UpgradeEnd (ok tt, t.schema)
        → RemoveEnd (commit_unless o t)
    commit_unless-RemoveEnd none t h = h
    commit_unless-RemoveEnd (some e) t h = tt

-- The engine is disposed of, unless none could be made.
abbrev pub DisposeEnd : Engine → Connection → Result (Unit {0}) × Connection → Type 0
DisposeEnd g before (ok u, c) = FileCurrent (ok u, c) × (c.disposed ≡ true)
DisposeEnd g before (err e, c) =
    ((g.create before).0 ≡ err e) ⊎ ((c.disposed ≡ true) × (c.schema ≡ c.in_file))

upgrade_connection-FileCurrent :
    (g : Engine) (c : Connection) → FileCurrent (upgrade_connection g c)
unfolding upgrade_connection
upgrade_connection-FileCurrent g c =
    >>=-cases FileCurrent g.connect _ c
      (λ _ _.
        let off = record ((g.connect c).1) { foreign_keys = false } in
        >>=-cases FileCurrent (observe legacy_revision) _ off
          (λ revision _.
            >>=-cases FileCurrent (stamp_if g revision) _ off
              (λ _ _.
                >>=-cases FileCurrent g.upgrade _ (stamp_if g revision off).1
                  (λ _ _. complete_upgrade-FileCurrent g (g.upgrade (stamp_if g revision off).1).1)
                  (λ _ _. tt))
              (λ _ _. tt))
          (λ _ _. tt))
      (λ _ _. tt)

dispose-DisposeEnd :
    (g : Engine) (before : Connection) (result : Result (Unit {0}) × Connection)
    → FileCurrent result
    → DisposeEnd g before (dispose result)
dispose-DisposeEnd g before (ok u, c) (current, same, on) = ((current, refl, on), refl)
dispose-DisposeEnd g before (err e, c) h = inr (refl, refl)

-- Whatever Alembic does: an upgrade that returns leaves a database file that has the four tables with
-- the columns that the program uses, the index on the samples, no violated foreign key, and no table
-- `schema_version` of the old versions. The pragma is on again, and also where it raises the engine
-- is disposed of, with nothing seen that is not in the file, also where it could not connect: unless
-- the directory or the engine itself could not be made.
pub upgrade_database-UpgradeEnd :
    (g : Engine) (c : Connection) → DisposeEnd g c (upgrade_database g c)
unfolding upgrade_database
upgrade_database-UpgradeEnd g c =
    >>=-cases (DisposeEnd g c) g.create (λ _ t. dispose (upgrade_connection g t)) c
      (λ _ _.
        let t = (g.create c).1 in
        dispose-DisposeEnd g c (upgrade_connection g t) (upgrade_connection-FileCurrent g t))
      (λ e refused. inl refused)
