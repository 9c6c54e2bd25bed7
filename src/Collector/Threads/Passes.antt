-- ===== src/Collector/Threads/Passes.antt =====
-- A pass of the loop of src/collector.py is a row of visits.
use sensorctl.Prelude.{◌≡◌, ℕ, List, [], ◌∷◌, IsIn, All, false}
use sensorctl.Prelude.Dict.{Dict}
use sensorctl.Prelude.Exec.{>>=-through}
use sensorctl.Config.Sensor.{SensorConfig}
use sensorctl.Runtime.Worker.{Bus}
use sensorctl.Collector.Schedule.{intervals_of, visit, visit_all}
use sensorctl.Collector.Threads.{SystemState, scheduler_of, with_scheduler, visits, Reach, later}

module _ {W : Type 0} (workers : Dict (Bus W)) (enabled : List SensorConfig) (now : ℕ) where
  pub visit_all-Reach :
      (sensors : List SensorConfig) {s0 : SystemState W} (s : SystemState W)
      → Reach W workers enabled s0 s
      → s.in_finally ≡ false
      → All (λ x. IsIn x enabled) sensors
      → Reach W workers enabled s0 (
          with_scheduler W s (visit_all (intervals_of enabled []) now sensors (scheduler_of W s)).1)
  unfolding visit_all
  visit_all-Reach [] s r running m = r
  visit_all-Reach (x ∷ sensors) {s0} s r running m =
      >>=-through (λ q. Reach W workers enabled s0 (with_scheduler W s q.1))
        (λ q. Reach W workers enabled s0 (with_scheduler W s q.1))
        (visit (intervals_of enabled []) now x)
        (λ _. visit_all (intervals_of enabled []) now sensors) (scheduler_of W s)
        (later r (visits x now running m.0))
        (λ u t q. visit_all-Reach sensors (with_scheduler W s t) q running m.1) (λ e t q. q)
