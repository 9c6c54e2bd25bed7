-- ===== src/Hardware/Bmp280/Enough.antt =====
-- The rounds of the loop in `_wait_until_ready` of src/hw/drivers/bmp280.py.
use sensorctl.Prelude.{
  ℕ, zero, suc, ◌+◌, ◌*◌, ◌≤◌, ◌<◌, ◌≡◌, refl, arith, List, [], ◌∷◌, Result, ok, err,
}
use sensorctl.Prelude.Exec.{Exec, then_do}
use sensorctl.Hardware.Bmp280.Sensor.{
  Board, status_register, ready_timeout_ns, wait_round, wait_loop, wait_rounds, wait_until_ready,
}
use sensorctl.Hardware.Bmp280.Wait.{HasClock, read_register-clock, status, looked}

then_do_eq :
    {W A B : Type 0} (r : Result A) (w : W) (f g : A → Exec W B)
    → ((a : A) → f a w ≡ g a w)
    → then_do (r, w) f ≡ then_do (r, w) g
then_do_eq (ok a) w f g h = h a
then_do_eq (err e) w f g h = refl

module _ {W : Type 0} (b : Board W) (address deadline : ℕ) where
  looked_eq :
      (again more : Exec W (Unit {0})) (w w' : W)
      → (b.monotonic_ns w' < deadline
          → again (b.sleep_ns 1_000_000 w') ≡ more (b.sleep_ns 1_000_000 w'))
      → (found : List ℕ)
      → looked b address deadline again w found w' ≡ looked b address deadline more w found w'
  looked_eq again more w w' h [] = refl
  looked_eq again more w w' h (flags ∷ found) = ground (arith, h)

  round_eq :
      HasClock b
      → (again more : Exec W (Unit {0})) (w : W)
      → ((w' : W)
          → b.monotonic_ns w ≤ b.monotonic_ns w'
          → b.monotonic_ns w' < deadline
          → again (b.sleep_ns 1_000_000 w') ≡ more (b.sleep_ns 1_000_000 w'))
      → wait_round b again address deadline w ≡ wait_round b more address deadline w
  unfolding wait_round
  round_eq clock again more w h =
      then_do_eq (status b address w).0 (status b address w).1 (looked b address deadline again w)
        (looked b address deadline more w)
        (looked_eq again more w _ (h _ (read_register-clock b clock address status_register 1 w)))

  loop_eq :
      HasClock b
      → (n m : ℕ) (w : W) → n < m
      → deadline ≤ b.monotonic_ns w + n * 1_000_000
      → wait_loop b m address deadline w ≡ wait_loop b (suc n) address deadline w
  unfolding wait_loop
  loop_eq clock n zero w more near = absurd (omega (arith, more))
  loop_eq clock zero (suc m) w more near =
      round_eq clock (wait_loop b m address deadline) (wait_loop b zero address deadline) w
        (λ w' on early. absurd (omega (arith, near, on, early)))
  loop_eq clock (suc n) (suc m) w more near =
      round_eq clock (wait_loop b m address deadline) (wait_loop b (suc n) address deadline) w
        (λ w' on early.
          loop_eq clock n m (b.sleep_ns 1_000_000 w') (omega (arith, more))
            (omega (arith, near, on, clock.sleeps 1_000_000 w')))

module _ {W : Type 0} (b : Board W) where
  -- With a clock that sleeping moves on, the loop that waits for the sensor is over within 101 rounds:
  -- to allow more changes nothing, whatever the sensor answers.
  pub wait_loop-enough :
      HasClock b
      → (rounds address : ℕ) (w : W) → wait_rounds b ≤ rounds
      → wait_loop b rounds address (b.monotonic_ns w + ready_timeout_ns) w
        ≡ wait_until_ready b address w
  unfolding wait_until_ready
  wait_loop-enough clock rounds address w more =
      loop_eq b address (b.monotonic_ns w + ready_timeout_ns) clock 100 rounds w
        (omega (arith, more)) (omega arith)
