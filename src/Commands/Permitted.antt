-- ===== src/Commands/Permitted.antt =====
-- The processes that `main` of src/commands.py starts.
use sensorctl.Prelude.{
  ◌≡◌, refl, subst, ap, sym, ◌∙◌, ◌⊎◌, inl, inr, arith, String, true, List, [], ◌∷◌, ◌++◌, if-cases,
  Result, ok, err, require, require-eq-ok, permission_error, Result-cases,
}
use sensorctl.Prelude.Int.{ℤ, pos}
use sensorctl.Prelude.Exec.{Exec, pure, lift, ◌>>=◌, ◌>>◌, >>=-cases, >>=-through, then_do}
use sensorctl.Config.Paths.{FilePath}
use sensorctl.Commands.Shell.{Machine, Shell, on_machine, print}
use sensorctl.Commands.Service.{
  run_process, systemctl, control, journal, service_name, show_status, show_journal,
}
use sensorctl.Commands.Quiet.{IsQuiet, bind-IsQuiet, report_status-IsQuiet, run_diagnosis-IsQuiet}
use sensorctl.Commands.Validated.{IsRoot, IsValid, shown, validate_ok, validate_err}
use sensorctl.Commands.Main.{
  Command, collect, validate, enable, start, restart, status, diagnose, disable, stop,
  prepare_config, prepared, valid_line, validate_config, report_status, run_diagnosis,
  journal_if_ok, is_zero, run_command, handle, main,
}

module _ {D W : Type 0} (m : Machine D W) where
  abbrev pub systemctl_process : List String → List String
  systemctl_process arguments = "systemctl" ∷ arguments ++ service_name ∷ []

  -- The process that a command may start, and under what condition.
  abbrev pub IsPermitted : Command → Shell W → List String → Type 0
  IsPermitted (enable config) s p =
      (p ≡ systemctl_process ("enable" ∷ "--now" ∷ [])) × IsRoot m s × IsValid m config s
  IsPermitted (start config) s p =
      (p ≡ systemctl_process ("start" ∷ [])) × IsRoot m s × IsValid m config s
  IsPermitted (restart config) s p =
      (p ≡ systemctl_process ("restart" ∷ [])) × IsRoot m s × IsValid m config s
  IsPermitted disable s p = (p ≡ systemctl_process ("disable" ∷ "--now" ∷ [])) × IsRoot m s
  IsPermitted stop s p = (p ≡ systemctl_process ("stop" ∷ [])) × IsRoot m s
  IsPermitted (status config status_path) s p =
      p ≡ systemctl_process ("--no-pager" ∷ "--full" ∷ "status" ∷ [])
  IsPermitted (diagnose config) s p = (p ≡ journal m) × IsValid m config s
  IsPermitted (validate config) s p = ⊥
  IsPermitted (collect config status_path) s p = ⊥

  -- No process was started, or one that has the property.
  abbrev pub HasStarted {ℓ} :
      {A : Type ℓ} → (List String → Type 0) → Shell W → Result A × Shell W → Type 0
  HasStarted P s r =
      (r.1.processes ≡ s.processes)
      ⊎ ((p : List String) × P p × (r.1.processes ≡ s.processes ++ p ∷ []))

  control_lem :
      (arguments : List String) (s t : Shell W) (P : List String → Type 0)
      → t.processes ≡ s.processes
      → (m.is_root t.world ≡ true → P (systemctl_process arguments))
      → HasStarted P s (control m arguments t)
  unfolding control
  control_lem arguments s t P same fits =
      >>=-cases (HasStarted P s)
        (lift (require (m.is_root t.world) permission_error "this command must run as root"))
        (λ _. systemctl m arguments) t
        (λ _ root. inr (
          systemctl_process arguments,
          fits (require-eq-ok _ _ _ root),
          ap (λ l. l ++ systemctl_process arguments ∷ []) same,
        ))
        (λ _ _. inl same)

  -- The guarded commands: the configuration is validated first.
  guarded_lem :
      (config : FilePath) (arguments : List String) (s : Shell W) (P : List String → Type 0)
      → (IsRoot m s → IsValid m config s → P (systemctl_process arguments))
      → HasStarted P s ((validate_config m config >>= λ _. control m arguments) s)
  guarded_lem config arguments s P fits = elim (Result-cases (prepare_config m config s.world)) [
    | inl (found, valid) ↦
        subst (HasStarted P s)
          (sym
            (ap (λ r. then_do r (λ _. control m arguments)) (validate_ok m config s found valid)))
          (control_lem arguments s (shown m found.0 s) P refl (λ root. fits root (found, valid)))
    | inr (e, invalid) ↦
        subst (HasStarted P s)
          (sym (ap (λ r. then_do r (λ _. control m arguments)) (validate_err m config s e invalid)))
          (inl refl)
  ]

  -- A part that starts no process, and then one that may.
  quiet_then :
      {A B : Type 0} (f : Exec (Shell W) A) (g : A → Exec (Shell W) B) (s : Shell W)
      (P : List String → Type 0)
      → IsQuiet m f
      → ((a : A) (t : Shell W)
          → (f s).0 ≡ ok a
          → t.processes ≡ s.processes
          → HasStarted P s (g a t))
      → HasStarted P s ((f >>= g) s)
  quiet_then f g s P quiet rest =
      >>=-cases (HasStarted P s) f g s (λ a e. rest a (f s).1 e (quiet s)) (λ e _. inl (quiet s))

  handle_processes : (r : Result ℤ × Shell W) → (handle m r).1.processes ≡ r.1.processes
  handle_processes (ok n, t) = refl
  handle_processes (err e, t) = ground arith

  validate_config-IsQuiet : (config : FilePath) → IsQuiet m (validate_config m config)
  unfolding validate_config
  validate_config-IsQuiet config =
      bind-IsQuiet m (prepared m config) (λ found. print (valid_line m found.0) >> pure (pos 0))
        (λ s. refl) (λ found s. refl)

  collect-IsQuiet : (config path : FilePath) → IsQuiet m (run_command m (collect config path))
  unfolding run_command
  collect-IsQuiet config path =
      bind-IsQuiet m (prepared m config)
        (λ found. on_machine (m.collect found.0 found.1 path) >> pure (pos 0)) (λ s. refl)
        (λ found.
          bind-IsQuiet m (on_machine (m.collect found.0 found.1 path))
            (λ _. pure {S = Shell W} (pos 0)) (λ s. refl) (λ _ s. refl))

  show_status_lem :
      (s : Shell W)
      → (show_status m s).1.processes
        ≡ s.processes ++ systemctl_process ("--no-pager" ∷ "--full" ∷ "status" ∷ []) ∷ []
  unfolding show_status
  show_status_lem s = ground arith

  run_process_lem :
      (arguments : List String) (t : Shell W)
      → (run_process m arguments t).1.processes ≡ t.processes ++ arguments ∷ []
  unfolding run_process
  run_process_lem arguments t = refl

  show_journal-HasStarted :
      (s t : Shell W) (P : List String → Type 0)
      → t.processes ≡ s.processes
      → P (journal m)
      → HasStarted P s (show_journal m t)
  unfolding show_journal
  show_journal-HasStarted s t P same fits =
      let more = ap (λ l. l ++ journal m ∷ []) same in
      if-cases (HasStarted P s) (m.has_journalctl t.world)
        ((run_process m (journal m) >>= λ _. pure tt) t) (ok tt, t)
        (λ _.
          >>=-cases (HasStarted P s) (run_process m (journal m)) (λ _. pure tt) t
            (λ _ _. inr (journal m, fits, run_process_lem (journal m) t ∙ more))
            (λ _ _. inr (journal m, fits, run_process_lem (journal m) t ∙ more)))
        (λ _. inl same)

  show_journal_lem :
      (k : Exec (Shell W) ℤ) (s t : Shell W) (P : List String → Type 0)
      → t.processes ≡ s.processes
      → IsQuiet m k
      → P (journal m)
      → HasStarted P s ((show_journal m >> k) t)
  show_journal_lem k s t P same quiet fits =
      >>=-through (HasStarted P s) (HasStarted P s) (show_journal m) (λ _. k) t
        (show_journal-HasStarted s t P same fits)
        (λ _ u h. elim h [
          | inl none ↦ inl (quiet u ∙ none)
          | inr (p, kept, one) ↦ inr (p, kept, quiet u ∙ one)
        ])
        (λ e u h. h)

  run_diagnosis-IsValid :
      (config : FilePath) (s : Shell W) (code : ℤ)
      → (run_diagnosis m config s).0 ≡ ok code
      → IsValid m config s
  unfolding run_diagnosis
  run_diagnosis-IsValid config s code =
      >>=-cases (λ (r : Result ℤ × Shell W). r.0 ≡ ok code → IsValid m config s) (prepared m config)
        _ s (λ found e _. (found, e)) (λ e _ h. cc)

  run_command_lem : (c : Command) (s : Shell W) → HasStarted (IsPermitted c s) s (run_command m c s)
  unfolding run_command
  run_command_lem (validate config) s = inl (validate_config-IsQuiet config s)
  run_command_lem (enable config) s =
      guarded_lem config ("enable" ∷ "--now" ∷ []) s _ (λ root valid. (refl, root, valid))
  run_command_lem (start config) s =
      guarded_lem config ("start" ∷ []) s _ (λ root valid. (refl, root, valid))
  run_command_lem (restart config) s =
      guarded_lem config ("restart" ∷ []) s _ (λ root valid. (refl, root, valid))
  run_command_lem disable s =
      control_lem ("disable" ∷ "--now" ∷ []) s s _ refl (λ root. (refl, root))
  run_command_lem stop s = control_lem ("stop" ∷ []) s s _ refl (λ root. (refl, root))
  run_command_lem (status config path) s =
      >>=-cases (HasStarted (IsPermitted (status config path) s) s) (show_status m)
        (λ _. report_status m config path) s
        (λ _ _.
          inr
            (_, refl, report_status-IsQuiet m config path (show_status m s).1 ∙ show_status_lem s))
        (λ _ _. inr (_, refl, show_status_lem s))
  run_command_lem (diagnose config) s =
      quiet_then (run_diagnosis m config) (journal_if_ok m) s (IsPermitted (diagnose config) s)
        (run_diagnosis-IsQuiet m config)
        (λ code t e same.
          if-cases (λ (f : Exec (Shell W) ℤ). HasStarted (IsPermitted (diagnose config) s) s (f t))
            (is_zero code) (show_journal m >> pure code) (pure code)
            (λ _.
              show_journal_lem (pure code) s t (IsPermitted (diagnose config) s) same (λ u. refl)
                (refl, run_diagnosis-IsValid config s code e))
            (λ _. inl same))
  run_command_lem (collect config path) s = inl (collect-IsQuiet config path s)

  -- A command starts at most one process, and only the one that belongs to it: those that change the
  -- service only for root, `enable`, `start` and `restart` only if the file is a valid configuration
  -- whose drivers can be made, and `diagnose` shows the journal only of such a file.
  pub main-HasStarted : (c : Command) (s : Shell W) → HasStarted (IsPermitted c s) s (main m c s)
  unfolding main
  main-HasStarted c s = elim (run_command_lem c s) [
    | inl same ↦ inl (handle_processes (run_command m c s) ∙ same)
    | inr (p, fits, more) ↦ inr (p, fits, handle_processes (run_command m c s) ∙ more)
  ]
