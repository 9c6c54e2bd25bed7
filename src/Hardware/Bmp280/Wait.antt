-- ===== src/Hardware/Bmp280/Wait.antt =====
-- How the wait of src/hw/drivers/bmp280.py for the sensor ends, with a clock that sleeping moves on.
use Prim.Native.Nat.{bit_and}
use sensorctl.Prelude.{
  ℕ, zero, suc, ◌+◌, ◌*◌, ◌≤◌, ◌<◌, if◌then◌else◌, ◌≡◌, ◌≢◌, ◌⊎◌, inl, inr, refl, ap, arith, List,
  [], ◌∷◌, leb, leb→le, ◌==◌, ==_iff, if-cases, length, Result, ok, err, raise, timeout_error,
}
use sensorctl.Prelude.Exec.{Exec, pure, lift, ◌>>=◌, ◌>>◌, >>=-cases}
use sensorctl.Hardware.Bmp280.Sensor.{
  Board, status_register, status_busy_mask, ready_timeout_ns, first_byte, check_length,
  read_register, sleep, wait_round, wait_loop, wait_until_ready,
}

module _ {W : Type 0} (b : Board W) where
  -- A sleep takes at least its time, and a transfer does not turn the clock back.
  pub record HasClock : Type 0 where
    pub sleeps : (ns : ℕ) (w : W) → b.monotonic_ns w + ns ≤ b.monotonic_ns (b.sleep_ns ns w)
    pub transfers :
        (address : ℕ) (bytes : List ℕ) (n : ℕ) (w : W)
        → b.monotonic_ns w ≤ b.monotonic_ns (b.transfer address bytes n w).1

  pub read_register-clock :
      HasClock
      → (address register n : ℕ) (w : W)
      → b.monotonic_ns w ≤ b.monotonic_ns (read_register b address register n w).1
  unfolding read_register
  read_register-clock clock address register n w =
      >>=-cases (λ r. b.monotonic_ns w ≤ b.monotonic_ns r.1) (b.transfer address (register ∷ []) n)
        (λ bytes. lift (check_length b register n bytes)) w
        (λ _ _. clock.transfers address (register ∷ []) n w)
        (λ _ _. clock.transfers address (register ∷ []) n w)

  pub read_register-length :
      (address register n : ℕ) (w : W) (bytes : List ℕ)
      → (read_register b address register n w).0 ≡ ok bytes
      → length bytes ≡ n
  unfolding read_register
  read_register-length address register n w bytes =
      >>=-cases (λ (r : Result (List ℕ) × W). r.0 ≡ ok bytes → length bytes ≡ n)
        (b.transfer address (register ∷ []) n) (λ bytes. lift (check_length b register n bytes)) w
        (λ found _.
          if-cases (λ (r : Result (List ℕ)). r ≡ ok bytes → length bytes ≡ n) (length found == n) _
            _ (λ same h. ground (arith, same, h)) (λ _ h. cc))
        (λ e _ h. cc)

  abbrev pub status : ℕ → Exec W (List ℕ)
  status address = read_register b address status_register 1

  -- The last status read found the sensor ready; or it raised; or it found the sensor busy at or after
  -- the deadline.
  abbrev pub WaitEnd : ℕ → ℕ → Result (Unit {0}) × W → Type 0
  WaitEnd address deadline (ok u, w') =
      (w : W) × (flags : ℕ) × (status address w ≡ (ok (flags ∷ []), w'))
      × (bit_and flags status_busy_mask ≡ 0)
  WaitEnd address deadline (err e, w') =
      (w : W) × ((status address w ≡ (err e, w'))
        ⊎ ((flags : ℕ) × (status address w ≡ (ok (flags ∷ []), w'))
            × (bit_and flags status_busy_mask ≢ 0)
            × (deadline ≤ b.monotonic_ns w')
            × (raise {A = Unit} timeout_error "BMP280 did not become ready" ≡ err e)))

  -- What a round does with the status that it read.
  module _ (address deadline : ℕ) (again : Exec W (Unit {0})) (w : W) where
    abbrev pub looked : List ℕ → Exec W (Unit {0})
    looked found = lift (first_byte found) >>= λ flags.
        if bit_and flags status_busy_mask == 0 then pure tt else λ w'.
        if leb deadline (b.monotonic_ns w')
        then (raise timeout_error "BMP280 did not become ready", w')
        else (sleep b 1_000_000 >> again) w'

    looked-WaitEnd :
        (found : List ℕ) (w' : W)
        → length found ≡ 1
        → status address w ≡ (ok found, w')
        → (b.monotonic_ns w' < deadline
            → WaitEnd address deadline (again (b.sleep_ns 1_000_000 w')))
        → WaitEnd address deadline (looked found w')
    looked-WaitEnd [] w' one read rest = absurd (omega (arith, one))
    looked-WaitEnd (flags ∷ g ∷ more) w' one read rest = absurd (omega (arith, one))
    looked-WaitEnd (flags ∷ []) w' one read rest =
        if-cases (λ (m : Exec W (Unit {0})). WaitEnd address deadline (m w'))
          (bit_and flags status_busy_mask == 0) _ _
          (λ ready. (w, flags, read, (==_iff _ 0).0 ready))
          (λ busy.
            if-cases (WaitEnd address deadline) (leb deadline (b.monotonic_ns w')) _ _
              (λ late. (
                w,
                inr (
                  flags,
                  read,
                  (λ none_set. ground (arith, busy, none_set)),
                  leb→le _ _ late,
                  refl,
                ),
              ))
              (λ early. rest (ground (arith, early))))

    round-WaitEnd :
        HasClock
        → ((w' : W)
            → b.monotonic_ns w ≤ b.monotonic_ns w'
            → b.monotonic_ns w' < deadline
            → WaitEnd address deadline (again (b.sleep_ns 1_000_000 w')))
        → WaitEnd address deadline (wait_round b again address deadline w)
    unfolding wait_round
    round-WaitEnd clock rest =
        >>=-cases (WaitEnd address deadline) (status address) looked w
          (λ found read.
            looked-WaitEnd found (status address w).1
              (read_register-length address status_register 1 w found read)
              (ap (λ r. (r, (status address w).1)) read)
              (rest _ (read_register-clock clock address status_register 1 w)))
          (λ e read. (w, inl (ap (λ r. (r, (status address w).1)) read)))

  loop-WaitEnd :
      HasClock
      → (n address deadline : ℕ) (w : W) → deadline ≤ b.monotonic_ns w + n * 1_000_000
      → WaitEnd address deadline (wait_loop b (suc n) address deadline w)
  unfolding wait_loop
  loop-WaitEnd clock zero address deadline w near =
      round-WaitEnd address deadline (wait_loop b zero address deadline) w clock
        (λ w' on early. absurd (omega (arith, near, on, early)))
  loop-WaitEnd clock (suc n) address deadline w near =
      round-WaitEnd address deadline (wait_loop b (suc n) address deadline) w clock (λ w' on early.
        loop-WaitEnd clock n address deadline (b.sleep_ns 1_000_000 w')
          (omega (arith, near, on, clock.sleeps 1_000_000 w')))

  -- With a clock that sleeping moves on, the wait for the sensor ends in one of three ways: it returns
  -- right after a status read without a busy bit; it raises what a status read raised; or it raises
  -- `TimeoutError`, right after a status read with a busy bit and at or after the deadline.
  pub wait_until_ready-WaitEnd :
      HasClock
      → (address : ℕ) (w : W)
      → WaitEnd address (b.monotonic_ns w + ready_timeout_ns) (wait_until_ready b address w)
  unfolding wait_until_ready
  wait_until_ready-WaitEnd clock address w =
      loop-WaitEnd clock 100 address (b.monotonic_ns w + ready_timeout_ns) w (omega arith)
