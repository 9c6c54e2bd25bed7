-- ===== src/Hardware/Ports/Closed.antt =====
-- The transports of src/hw/transports that are not open.
use sensorctl.Prelude.{
  ℕ, ◌≡◌, refl, Option, none, some, List, Result, ok, err, raise, runtime_error,
}
use sensorctl.Prelude.Exec.{>>=-cases}
use sensorctl.Hardware.Ports.{
  Port, Packages, on_world, set_handle, transfer_i2c, transfer_spi, read_uart, write_uart,
  close_transport, close_port,
}

module _ {H W : Type 0} (packages : Packages H W) (value : ℕ → Option ℕ) where
  -- Each use raises and does nothing, and closing once more does nothing.
  pub record Closed (q : Port H W) : Type 0 where
    pub i2c :
        (address : ℕ) (bytes : List ℕ) (n : ℕ)
        → transfer_i2c packages value address bytes n q
          ≡ (raise runtime_error "I2C transport is not open", q)
    pub spi :
        (bytes : List ℕ)
        → transfer_spi packages value bytes q ≡ (raise runtime_error "SPI transport is not open", q)
    pub uart_read :
        (n : ℕ)
        → read_uart packages value n q ≡ (raise runtime_error "UART transport is not open", q)
    pub uart_write :
        (bytes : List ℕ)
        → write_uart packages value bytes q ≡ (raise runtime_error "UART transport is not open", q)
    pub close_again : close_transport packages value q ≡ (ok tt, q)

  none-Closed : (w : W) → Closed (record { handle = none; world = w })
  unfolding transfer_i2c transfer_spi read_uart write_uart close_transport close_port
  none-Closed w = record {
    i2c = λ address bytes n. refl;
    spi = λ bytes. refl;
    uart_read = λ n. refl;
    uart_write = λ bytes. refl;
    close_again = refl;
  }

  -- A close that raises leaves the handle as it was.
  abbrev pub CloseEnd : Option H → Result (Unit {0}) × Port H W → Type 0
  CloseEnd handle (ok u, q) = Closed q
  CloseEnd handle (err e, q) = q.handle ≡ handle

  closing :
      (handle : Option H) (w : W)
      → CloseEnd handle (close_transport packages value (record { handle = handle; world = w }))
  unfolding close_transport close_port
  closing none w = none-Closed w
  closing (some h) w =
      >>=-cases (CloseEnd (some h)) (on_world (packages.close_handle h)) (λ _. set_handle none)
        (record { handle = some h; world = w }) (λ _ _. none-Closed _) (λ e _. refl)

  -- After a close that returns, of an open transport or not, every use raises `RuntimeError` and
  -- touches nothing, and another close does nothing; after a close that raises, the transport keeps
  -- its handle.
  pub close_transport-CloseEnd :
      (p : Port H W) → CloseEnd p.handle (close_transport packages value p)
  close_transport-CloseEnd p = closing p.handle p.world
