-- ===== src/Commands/Exit.antt =====
-- How the five commands of src/commands.py that control the service end, and `validate`.
use sensorctl.Prelude.{
  ◌≡◌, refl, subst, Option, none, some, ap, sym, ◌∙◌, ◌⊎◌, inl, inr, arith, String, false, List, [],
  ◌∷◌, ◌++◌, if◌then◌else◌, Result, ok, err, Exception, require, require-eq-ok, require-eq-err,
  permission_error, Result-cases,
}
use sensorctl.Prelude.Int.{ℤ, pos}
use sensorctl.Prelude.Exec.{lift, ◌>>=◌, >>=-cases, then_do}
use sensorctl.Config.Paths.{FilePath}
use sensorctl.Commands.Shell.{Machine, Shell}
use sensorctl.Commands.Service.{run_process, require_root, systemctl, control}
use sensorctl.Commands.Permitted.{systemctl_process}
use sensorctl.Commands.Validated.{IsRoot, IsValid, shown, validate_ok, validate_err}
use sensorctl.Commands.Main.{
  Command, enable, start, restart, disable, stop, prepare_config, validate_config, handle,
  is_caught, main, run_command,
}

-- What each of the five commands passes to systemctl, and the configuration that it validates first.
abbrev pub controls : Command → Option (Option FilePath × List String)
controls (enable config) = some (some config, "enable" ∷ "--now" ∷ [])
controls (start config) = some (some config, "start" ∷ [])
controls (restart config) = some (some config, "restart" ∷ [])
controls disable = some (none, "disable" ∷ "--now" ∷ [])
controls stop = some (none, "stop" ∷ [])
controls _ = none

-- How `main` reports an exception.
abbrev pub reported : Exception → Result ℤ
reported e = if is_caught e.kind then ok (pos 1) else err e

module _ {D W : Type 0} (m : Machine D W) where
  -- Nothing to validate, or a valid file.
  abbrev pub IsReady : Option FilePath → Shell W → Type 0
  IsReady none s = Unit
  IsReady (some config) s = IsValid m config s

  abbrev pub IsInvalid : Option FilePath → Shell W → Exception → Type 0
  IsInvalid none s e = ⊥
  IsInvalid (some config) s e = prepare_config m config s.world ≡ err e

  -- It was refused with an exception, before a process was started; or systemctl was started, and gave
  -- a code or could not be run.
  abbrev pub ControlEnd : Option FilePath → List String → Shell W → Result ℤ × Shell W → Type 0
  ControlEnd config arguments s (r, t) =
      ((e : Exception) × (IsInvalid config s e
          ⊎ (IsReady config s × (m.is_root s.world ≡ false) × (e.kind ≡ permission_error)))
        × (t.processes ≡ s.processes)
        × (r ≡ reported e))
      ⊎ (IsReady config s
          × IsRoot m s
          × (t.processes ≡ s.processes ++ systemctl_process m arguments ∷ [])
          × (((code : ℤ) × ((m.run (systemctl_process m arguments) s.world).0 ≡ ok code)
                × (r ≡ ok code))
              ⊎ ((e : Exception) × ((m.run (systemctl_process m arguments) s.world).0 ≡ err e)
                  × (r ≡ reported e))))

  handle_err :
      (e : Exception) (t : Shell W)
      → ((handle m (err e, t)).0 ≡ reported e) × ((handle m (err e, t)).1.processes ≡ t.processes)
  handle_err e t = (ground arith, ground arith)

  started-ControlEnd :
      (config : Option FilePath) (arguments : List String) (s : Shell W) (r : Result ℤ)
      (u : Shell W)
      → (m.run (systemctl_process m arguments) s.world).0 ≡ r
      → u.processes ≡ s.processes ++ systemctl_process m arguments ∷ []
      → IsReady config s
      → IsRoot m s
      → ControlEnd config arguments s (handle m (r, u))
  started-ControlEnd config arguments s (ok code) u ran more ready root =
      inr (ready, root, more, inl (code, ran, refl))
  started-ControlEnd config arguments s (err e) u ran more ready root =
      inr (ready, root, (handle_err e u).1 ∙ more, inr (e, ran, (handle_err e u).0))

  -- The part after the validation, which left the machine as it was.
  control-ControlEnd :
      (config : Option FilePath) (arguments : List String) (s t : Shell W)
      → t.processes ≡ s.processes
      → t.world ≡ s.world
      → IsReady config s
      → ControlEnd config arguments s (handle m (control m arguments t))
  unfolding control systemctl run_process require_root
  control-ControlEnd config arguments s t same here ready =
      let message : String = "this command must run as root" in
      >>=-cases (λ r. ControlEnd config arguments s (handle m r))
        (lift (require (m.is_root t.world) permission_error message)) (λ _. systemctl m arguments) t
        (λ _ root.
          started-ControlEnd config arguments s (m.run (systemctl_process m arguments) t.world).0
            (systemctl m arguments t).1
            (ap (λ w. (m.run (systemctl_process m arguments) w).0) (sym here))
            (ap (λ l. l ++ systemctl_process m arguments ∷ []) same) ready
            (ap m.is_root (sym here)
              ∙ require-eq-ok (m.is_root t.world) permission_error message root))
        (λ e other.
          let (no_root, kind) = require-eq-err (m.is_root t.world) permission_error message other in
          inl (
            e,
            inr (
              ready,
              ap m.is_root (sym here) ∙ no_root,
              ap (λ (x : Exception). x.kind) (sym kind),
            ),
            (handle_err e t).1 ∙ same,
            (handle_err e t).0,
          ))

  guarded-ControlEnd :
      (config : FilePath) (arguments : List String) (s : Shell W)
      → ControlEnd
          (some config)
          arguments
          s
          (handle m ((validate_config m config >>= λ _. control m arguments) s))
  guarded-ControlEnd config arguments s =
      let rest = λ (r : Result ℤ × Shell W). handle m (then_do r (λ _. control m arguments)) in
      elim (Result-cases (prepare_config m config s.world)) [
        | inl (found, valid) ↦
            subst (λ r. ControlEnd (some config) arguments s (rest r))
              (sym (validate_ok m config s found valid))
              (control-ControlEnd (some config) arguments s (shown m found.0 s) refl refl
                (found, valid))
        | inr (e, invalid) ↦
            subst (λ r. ControlEnd (some config) arguments s (rest r))
              (sym (validate_err m config s e invalid))
              (inl (e, inl invalid, (handle_err e s).1, (handle_err e s).0))
      ]

  -- Of a command that is none of the five nothing is said.
  abbrev pub EndOf : Option (Option FilePath × List String) → Shell W → Result ℤ × Shell W → Type 0
  EndOf none s r = Unit
  EndOf (some p) s r = ControlEnd p.0 p.1 s r

  -- Each of `enable`, `start`, `restart`, `disable` and `stop` ends in one of two ways. It is refused,
  -- because its configuration is not valid or the program does not run as root, and then nothing was
  -- started and the exception is reported; or its configuration is valid, the program runs as root,
  -- its one process was started, and the exit code is the code of that process, or what could not be
  -- run is reported.
  pub main-ControlEnd : (c : Command) (s : Shell W) → EndOf (controls c) s (main m c s)
  unfolding main run_command
  main-ControlEnd (enable config) s = guarded-ControlEnd config ("enable" ∷ "--now" ∷ []) s
  main-ControlEnd (start config) s = guarded-ControlEnd config ("start" ∷ []) s
  main-ControlEnd (restart config) s = guarded-ControlEnd config ("restart" ∷ []) s
  main-ControlEnd disable s = control-ControlEnd none ("disable" ∷ "--now" ∷ []) s s refl refl tt
  main-ControlEnd stop s = control-ControlEnd none ("stop" ∷ []) s s refl refl tt
  main-ControlEnd _ s = tt
