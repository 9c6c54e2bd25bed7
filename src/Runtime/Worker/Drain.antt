-- ===== src/Runtime/Worker/Drain.antt =====
-- The end of the worker of src/runtime/worker.py: its loop on the tasks before the `None` that the
-- collector puts last, and its cleanup.
use mathlib.Core.List.{append_assoc}
use sensorctl.Prelude.{
  ◌<◌, ◌≡◌, refl, ap, sym, subst, ◌∙◌, false, ◌&&◌, Option, none, some, List, [], ◌∷◌, ◌++◌, map,
  arith, length, is_empty, All, All-imp, if-cases, Exception, Result, ok, err,
}
use sensorctl.Prelude.Dict.{values}
use sensorctl.Prelude.Exec.{Exec, pure, ◌>>◌, >>=-cases}
use sensorctl.Hardware.Driver.{SensorDriver}
use sensorctl.Runtime.Worker.{
  Bus, Bench, ReadTask, Turn, Outcome, breaks, continues, WorkerEnd, finished, on_hardware, perform,
  arrive, take, turn, continue, loop, note_error, close_drivers, clean_up, leave, run,
}
use sensorctl.Runtime.Worker.Steady.{
  IsListed, NotPending, Steady, Steady-trans, IsQuiet, Performed, perform-Performed,
}

module _ (W : Type 0) (c : Bus W) where
  -- The tasks before the first `None`, and that their sensors have entries.
  record Queued (queued : List ReadTask) (b : Bench W) : Type 0 where
    rest : List (Option ReadTask)
    tasks : b.tasks ≡ map some queued ++ none ∷ rest
    listed : All (λ (t : ReadTask). IsListed b.shared.stats t.sensor.id) queued

  abbrev Idle : List ReadTask → Bench W → Type 0
  Idle queued b = All (λ (t : ReadTask). NotPending b.shared.stats t.sensor.id) queued

  Idle-Steady :
      (queued : List ReadTask) (b b' : Bench W)
      → Steady b.shared.stats b'.shared.stats
      → Idle queued b
      → Idle queued b'
  Idle-Steady queued b b' s =
      All-imp (λ (t : ReadTask). NotPending b.shared.stats t.sensor.id)
        (λ (t : ReadTask). NotPending b'.shared.stats t.sensor.id) queued
        (λ t h. s.idle t.sensor.id h)

  -- A turn breaks if no task is left before the `None`, and else performs the first.
  abbrev TurnEnd : List ReadTask → Bench W → Result Outcome × Bench W → Type 0
  TurnEnd [] b (ok breaks, b') = Steady b.shared.stats b'.shared.stats
  TurnEnd (task ∷ queued) b (ok continues, b') =
      Steady b.shared.stats b'.shared.stats
      × NotPending b'.shared.stats task.sensor.id
      × Queued queued b'
  TurnEnd _ b _ = ⊥

  performs :
      (task : ReadTask) (queued : List ReadTask) (b b1 : Bench W) (rest : List (Option ReadTask))
      → Steady b.shared.stats b1.shared.stats
      → b1.tasks ≡ map some queued ++ none ∷ rest
      → All (λ (t : ReadTask). IsListed b1.shared.stats t.sensor.id) (task ∷ queued)
      → TurnEnd (task ∷ queued) b ((perform W c task.sensor >> pure continues) b1)
  performs task queued b b1 rest before same known =
      >>=-cases (TurnEnd (task ∷ queued) b) (perform W c task.sensor) _ b1
        (λ _ _. (
          Steady-trans b.shared.stats b1.shared.stats after.shared.stats before p.steady,
          p.cleared,
          record {
            rest = rest;
            tasks = p.tasks_same ∙ same;
            listed =
                All-imp (λ (t : ReadTask). IsListed b1.shared.stats t.sensor.id)
                  (λ (t : ReadTask). IsListed after.shared.stats t.sensor.id) queued
                  (λ t h. p.steady.listed t.sensor.id h) known.1;
          },
        ))
        (λ e raised. cc (p.returns))
    where
      after : Bench W
      after = (perform W c task.sensor b1).1

      p : Performed W c task.sensor.id b1 (perform W c task.sensor b1)
      p = perform-Performed W c task.sensor b1 known.0

  takes :
      (queued : List ReadTask) (b b1 : Bench W) (rest : List (Option ReadTask))
      → Steady b.shared.stats b1.shared.stats
      → All (λ (t : ReadTask). IsListed b1.shared.stats t.sensor.id) queued
      → TurnEnd queued b (take W c (map some queued ++ none ∷ rest) b1)
  unfolding take
  takes [] b b1 rest before known = before
  takes (task ∷ queued) b b1 rest before known =
      performs task queued b (record b1 { tasks = map some queued ++ none ∷ rest }) rest before refl
        known

  none_queued :
      (queued : List ReadTask) (rest : List (Option ReadTask))
      → is_empty (map some queued ++ none ∷ rest) ≡ false
  none_queued [] rest = refl
  none_queued (task ∷ queued) rest = refl

  turn_lem :
      (queued : List ReadTask) (t : Turn) (b : Bench W)
      → IsQuiet t
      → Queued queued b
      → TurnEnd queued b (turn W c t b)
  unfolding turn
  turn_lem queued t b quiet q =
      if-cases (TurnEnd queued b) (c.is_stopped b.hardware && is_empty b.tasks) _ _
        (λ empty. absurd (ground (arith, empty, none_queued queued q.rest, ap is_empty q.tasks)))
        (λ _.
          subst (λ l. TurnEnd queued b (take W c l (arrive W c t b))) (sym arrived)
            (takes queued b (arrive W c t b) (q.rest ++ t.arrivals) (quiet b.shared) (
              All-imp (λ (task : ReadTask). IsListed b.shared.stats task.sensor.id)
                (λ (task : ReadTask). IsListed (t.others b.shared).stats task.sensor.id) queued
                (λ task h. (quiet b.shared).listed task.sensor.id h) q.listed)))
    where
      arrived : b.tasks ++ t.arrivals ≡ map some queued ++ none ∷ (q.rest ++ t.arrivals)
      arrived =
          ap (λ l. l ++ t.arrivals) q.tasks
          ∙ append_assoc (map some queued) (none ∷ q.rest) t.arrivals

  -- The loop breaks with every sensor of the list idle.
  abbrev LoopEnd : List ReadTask → Bench W → Result Outcome × Bench W → Type 0
  LoopEnd queued b (ok breaks, b') = Steady b.shared.stats b'.shared.stats × Idle queued b'
  LoopEnd queued b _ = ⊥

  last_turn :
      (b : Bench W) (more : Exec (Bench W) Outcome) (r : Result Outcome × Bench W)
      → TurnEnd [] b r
      → LoopEnd [] b (continue W r more)
  unfolding continue
  last_turn b more (ok breaks, b') h = (h, tt)
  last_turn b more (ok continues, b') h = absurd h
  last_turn b more (err e, b') h = absurd h

  later_end :
      (task : ReadTask) (queued : List ReadTask) (b b1 : Bench W) (r : Result Outcome × Bench W)
      → Steady b.shared.stats b1.shared.stats
      → NotPending b1.shared.stats task.sensor.id
      → LoopEnd queued b1 r
      → LoopEnd (task ∷ queued) b r
  later_end task queued b b1 (ok breaks, b') s h (s', idle) = (
    Steady-trans b.shared.stats b1.shared.stats b'.shared.stats s s',
    (s'.idle task.sensor.id h, idle),
  )
  later_end task queued b b1 (ok continues, b') s h e = absurd e
  later_end task queued b b1 (err x, b') s h e = absurd e

  next_turn :
      (task : ReadTask) (queued : List ReadTask) (b : Bench W) (more : Exec (Bench W) Outcome)
      (r : Result Outcome × Bench W)
      → TurnEnd (task ∷ queued) b r
      → ((b' : Bench W) → Queued queued b' → LoopEnd queued b' (more b'))
      → LoopEnd (task ∷ queued) b (continue W r more)
  unfolding continue
  next_turn task queued b more (ok continues, b') (s, idle, q) rest =
      later_end task queued b b' (more b') s idle (rest b' q)
  next_turn task queued b more (ok breaks, b') h rest = absurd h
  next_turn task queued b more (err e, b') h rest = absurd h

  loop_lem :
      (queued : List ReadTask) (ts : List Turn) (b : Bench W)
      → length queued < length ts
      → All IsQuiet ts
      → Queued queued b
      → LoopEnd queued b (loop W c ts b)
  unfolding loop
  loop_lem queued [] b enough quiet q = absurd (omega arith)
  loop_lem [] (t ∷ ts) b enough quiet q =
      last_turn b (loop W c ts) (turn W c t b) (turn_lem [] t b quiet.0 q)
  loop_lem (task ∷ queued) (t ∷ ts) b enough quiet q =
      next_turn task queued b (loop W c ts) (turn W c t b) (turn_lem (task ∷ queued) t b quiet.0 q)
        λ b' q'. loop_lem queued ts b' (omega arith) quiet.1 q'

  -- No `close` of the drivers and of the transport raises.
  pub record ClosesQuietly : Type 0 where
    pub drivers : All (λ (d : SensorDriver W). (w : W) → (d.close w).0 ≡ ok tt) (values c.drivers)
    pub transport : (w : W) → (c.transport.close_device w).0 ≡ ok tt

  note_quiet :
      (error : Option Exception) (r : Result (Unit {0}) × W)
      → r.0 ≡ ok tt
      → (note_error W error r).0 ≡ error
  note_quiet error (ok u, w) h = refl
  note_quiet error (err e, w) h = cc

  close_drivers_quiet :
      (drivers : List (SensorDriver W)) (error : Option Exception) (w : W)
      → All (λ (d : SensorDriver W). (v : W) → (d.close v).0 ≡ ok tt) drivers
      → (close_drivers W drivers (error, w)).0 ≡ error
  unfolding close_drivers
  close_drivers_quiet [] error w h = refl
  close_drivers_quiet (d ∷ drivers) error w h =
      close_drivers_quiet drivers _ (note_error W error (d.close w)).1 h.1
      ∙ note_quiet error (d.close w) (h.0 w)

  clean_up_quiet :
      (error : Option Exception) (b : Bench W)
      → ClosesQuietly
      → (clean_up W c error b).0 ≡ finished error
  unfolding clean_up
  clean_up_quiet error b quiet = ap finished (
      note_quiet _ (c.transport.close_device _) (quiet.transport _)
      ∙ close_drivers_quiet (values c.drivers) error b.hardware quiet.drivers)

  -- The thread is done, with no error, and the sensors of the list are idle.
  abbrev pub Drained : List ReadTask → WorkerEnd × Bench W → Type 0
  Drained queued result = (result.0 ≡ finished none) × Idle queued result.1

  leaves :
      (queued : List ReadTask) (b : Bench W) (r : Result Outcome × Bench W)
      → ClosesQuietly
      → LoopEnd queued b r
      → Drained queued (leave W c r)
  unfolding leave clean_up
  leaves queued b (ok breaks, b') quiet h = (clean_up_quiet none b' quiet, h.1)
  leaves queued b (ok continues, b') quiet h = absurd h
  leaves queued b (err e, b') quiet h = absurd h

  -- A worker whose queue holds n tasks before a `None` ends within n + 1 turns, with no error and with
  -- none of the sensors of those tasks pending, whatever the reads give and whether or not the stop
  -- event is set: if the transport opens, no `close` raises, those sensors have entries, and the
  -- other threads dispatch nothing.
  pub run-Drained :
      (queued : List ReadTask) (rest : List (Option ReadTask)) (turns : List Turn) (b : Bench W)
      → (c.transport.open_device b.hardware).0 ≡ ok tt
      → ClosesQuietly
      → b.tasks ≡ map some queued ++ none ∷ rest
      → length queued < length turns
      → All IsQuiet turns
      → All (λ (t : ReadTask). IsListed b.shared.stats t.sensor.id) queued
      → Drained queued (run W c turns b)
  unfolding run
  run-Drained queued rest turns b opens quiet tasks enough others listed =
      >>=-cases (λ r. Drained queued (leave W c r)) (on_hardware W c.transport.open_device) _ b
        (λ _ _. leaves queued b' (loop W c turns b') quiet (
          loop_lem queued turns b' enough others
            (record { rest = rest; tasks = tasks; listed = listed })))
        (λ e raised. cc (opens))
    where
      b' : Bench W
      b' = record b { hardware = (c.transport.open_device b.hardware).1 }
