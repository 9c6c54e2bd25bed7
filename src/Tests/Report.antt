-- ===== src/Tests/Report.antt =====
-- The status file of src/runtime/status.py on a file system with two files.
use sensorctl.Prelude.{
  ℕ, ◌≡◌, refl, String, Bool, true, false, Option, none, some, List, [], ◌∷◌, if◌then◌else◌, str_eq,
  ok, err, Exception, os_error, Result, split, join,
}
use sensorctl.Runtime.Queue.{Shared, new_queue}
use sensorctl.Runtime.Report.{FileSystem, Snapshot, Round, with_suffix, write, loop, run}
use sensorctl.Runtime.Report.Whole.{IsAtomic, OldOrWhole, run-OldOrWhole}

-- The status file, the other file, and how many replacements still succeed.
record Disk : Type 0 where
  status : Option String
  other : Option String
  good : ℕ

abbrev full : Exception
full = record { kind = os_error; message = "no space left" }

abbrev try_replace : Disk → ℕ → Result (Unit {0}) × Disk
try_replace d ℕ.zero = (err full, d)
try_replace d (ℕ.suc n) = (ok tt, record { status = d.other; other = none; good = n })

abbrev disk : FileSystem
disk = record {
  State = Disk;
  look = λ path d. if str_eq path "/run/status.json" then d.status else d.other;
  make_parent = λ path d. (ok tt, d);
  write_text = λ path text d. (ok tt, record d { other = some text });
  replace = λ old new d. try_replace d d.good;
}

suffix : with_suffix "/run/status.json" ".tmp" ≡ "/run/status.tmp"
unfolding with_suffix split join
suffix = refl

abbrev shared : Shared
shared = record {
  stats = record {
    sensors = [];
    started_at = "s";
    last_commit_at = none;
    accepted_count = 0;
    committed_count = 0;
    shutdown_report = none;
  };
  queue = new_queue 5;
  stop_event = false;
}

abbrev dumps : Snapshot → String
dumps s = s.updated_at

abbrev round : String → Bool → Round
round now is_stopped = record { is_stopped = is_stopped; shared = shared; now = now }

abbrev rounds : List Round
rounds = round "1" false ∷ round "2" false ∷ round "3" true ∷ []

opened : Unit {0}
unfolding with_suffix split join write loop run
opened = tt

-- The second replacement fails, and the file stays.
second_fails :
    run disk dumps "/run/status.json" 5 rounds (record { status = none; other = none; good = 1 })
    ≡ ((some full, true), record { status = some "1\n"; other = some "2\n"; good = 0 })
unfolding opened
second_fails = refl

replace_moves :
    (d : Disk) (n : ℕ) → (try_replace d n).0 ≡ ok tt → (try_replace d n).1.status ≡ d.other
replace_moves d ℕ.zero h = cc
replace_moves d (ℕ.suc n) h = refl

replace_stays :
    (d : Disk) (n : ℕ) (e : Exception)
    → (try_replace d n).0 ≡ err e
    → (try_replace d n).1.status ≡ d.status
replace_stays d ℕ.zero e h = refl
replace_stays d (ℕ.suc n) e h = cc

disk-IsAtomic : IsAtomic disk "/run/status.json" (with_suffix "/run/status.json" ".tmp")
unfolding opened
disk-IsAtomic = record {
  parent_keeps = λ f. refl;
  write_keeps = λ text f. refl;
  write_ok = λ text f h. refl;
  replace_ok = λ f h. replace_moves f f.good h;
  replace_err = λ f e h. replace_stays f f.good e h;
}

run-OldOrWhole_example :
    OldOrWhole disk dumps "/run/status.json" 5 disk-IsAtomic rounds
      (record { status = none; other = none; good = 1 })
      (run disk dumps "/run/status.json" 5 rounds
        (record { status = none; other = none; good = 1 })).1
run-OldOrWhole_example =
    run-OldOrWhole disk dumps "/run/status.json" 5 disk-IsAtomic rounds
      (record { status = none; other = none; good = 1 })
