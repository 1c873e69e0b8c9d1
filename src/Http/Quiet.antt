-- ===== src/Http/Quiet.antt =====
-- src/http.c with src/io.c: requests neither make nor give back a block.
use switcher_c.Base.{◌++◌, ℕ, ◌%◌, refl, some, true, not, ◌&&◌, ◌||◌}
use switcher_c.Base.Int.{pos, ltb_ℤ, eqb_ℤ, u8_mod, pos_part}
use switcher_c.Base.Text.{Bytes, text}
use switcher_c.Config.{
  IoBus, IoDev, IoConfig, IoData, IoCmd, cmd_none, cmd_write, cmd_read, DevDrv, pcf8574, mcp23017,
  piface, elem_at, idx_invalid,
}
use switcher_c.Http.{success_callback, error_callback}
use switcher_c.I2cLinux.Quiet.{
  pcf8574_write-KeepsBlocks, pcf8574_read-KeepsBlocks, mcp23017_write-KeepsBlocks,
  mcp23017_read-KeepsBlocks,
}
use switcher_c.IoCore.{
  refuse, outcome, dev_read, dev_write, finish_write, finish_read, perform_write, perform_read,
  at_device, perform_cmd, perform_io, device_missing, store_dev, shift_one, set_sub_dev,
  get_sub_dev,
}
use switcher_c.Pfio.{
  spi_error, spi_transfer, spi_write, spi_read, write_output, read_output, spi_write_cmd,
  spi_read_cmd, output_port,
}
use switcher_c.Piface
use switcher_c.Driver.{read_reply}
use switcher_c.Tables.{drivers}
use switcher_c.World.{Object, Event, deref, ◌>>=◌}
use switcher_c.World.Quiet.{
  KeepsBlocks, pure-KeepsBlocks, bind-KeepsBlocks, if-KeepsBlocks, deref-KeepsBlocks,
  call_out-KeepsBlocks, strerror-KeepsBlocks, emit-KeepsBlocks, set_buf-KeepsBlocks,
  get_spi-KeepsBlocks,
}

module _ (k g : Object → ℕ) where
  success-KeepsBlocks : (d : IoData) → KeepsBlocks k g (success_callback d)
  unfolding success_callback
  success-KeepsBlocks d = set_buf-KeepsBlocks k g _

  pub error-KeepsBlocks : (msg : Bytes) → KeepsBlocks k g (error_callback msg)
  unfolding error_callback
  error-KeepsBlocks msg = set_buf-KeepsBlocks k g _

  spi_error-KeepsBlocks : KeepsBlocks k g spi_error
  unfolding spi_error
  spi_error-KeepsBlocks =
      bind-KeepsBlocks k g
        (emit-KeepsBlocks k g (Event.put_stderr (text "ERROR: Can not send SPI message")) refl)
        λ _.
          bind-KeepsBlocks k g (strerror-KeepsBlocks k g)
            λ reason. emit-KeepsBlocks k g (Event.put_stderr (reason ++ text "\n")) refl

  transfer-KeepsBlocks : (cmd port value : ℕ) → KeepsBlocks k g (spi_transfer cmd port value)
  unfolding spi_transfer
  transfer-KeepsBlocks cmd port value = bind-KeepsBlocks k g (get_spi-KeepsBlocks k g) λ spi.
      bind-KeepsBlocks k g (call_out-KeepsBlocks k g (Event.spi_message spi.fd cmd port value) refl)
        λ r.
          bind-KeepsBlocks k g
            (if-KeepsBlocks k g (ltb_ℤ r.0 (pos 1)) spi_error-KeepsBlocks (pure-KeepsBlocks k g tt))
            λ _. pure-KeepsBlocks k g (r.1 % u8_mod)

  piface_write-KeepsBlocks :
      (bus : IoBus) (dev : IoDev) (v : ℕ)
      → KeepsBlocks k g (Piface.write bus dev v (some error_callback))
  unfolding Piface.write write_output spi_write
  piface_write-KeepsBlocks bus dev v =
      bind-KeepsBlocks k g
        (bind-KeepsBlocks k g (transfer-KeepsBlocks spi_write_cmd output_port (v % u8_mod))
          λ _. pure-KeepsBlocks k g tt)
        λ _. pure-KeepsBlocks k g (pos 1, dev)

  piface_read-KeepsBlocks :
      (bus : IoBus) (dev : IoDev) (v : ℕ)
      → KeepsBlocks k g (Piface.read bus dev v (some error_callback))
  unfolding Piface.read read_output spi_read
  piface_read-KeepsBlocks bus dev v =
      bind-KeepsBlocks k g (transfer-KeepsBlocks spi_read_cmd output_port 0xff)
        λ r. pure-KeepsBlocks k g (read_reply (pos 1) r dev)

  dev_write-KeepsBlocks :
      (bus : IoBus) (dev : IoDev) (v : ℕ)
      → KeepsBlocks k g (dev_write drivers bus dev v (some error_callback))
  unfolding dev_write
  dev_write-KeepsBlocks bus dev v =
      bind-KeepsBlocks k g (deref-KeepsBlocks k g dev.drv_handle) λ h. by_driver h
    where
      by_driver :
          (h : DevDrv)
          → KeepsBlocks k g
              (do write ← deref (drivers.dev_ops h).write; write bus dev v (some error_callback))
      by_driver pcf8574 = pcf8574_write-KeepsBlocks k g bus error_callback error-KeepsBlocks dev v
      by_driver mcp23017 = mcp23017_write-KeepsBlocks k g bus error_callback error-KeepsBlocks dev v
      by_driver piface = piface_write-KeepsBlocks bus dev v

  dev_read-KeepsBlocks :
      (bus : IoBus) (dev : IoDev) (v : ℕ)
      → KeepsBlocks k g (dev_read drivers bus dev v (some error_callback))
  unfolding dev_read
  dev_read-KeepsBlocks bus dev v =
      bind-KeepsBlocks k g (deref-KeepsBlocks k g dev.drv_handle) λ h. by_driver h
    where
      by_driver :
          (h : DevDrv)
          → KeepsBlocks k g
              (do read ← deref (drivers.dev_ops h).read; read bus dev v (some error_callback))
      by_driver pcf8574 = pcf8574_read-KeepsBlocks k g bus error_callback error-KeepsBlocks dev v
      by_driver mcp23017 = mcp23017_read-KeepsBlocks k g bus error_callback error-KeepsBlocks dev v
      by_driver piface = piface_read-KeepsBlocks bus dev v

  module _ (d : IoData) where
    refuse-KeepsBlocks :
        (msg : Bytes) (c : IoConfig) → KeepsBlocks k g (refuse msg c d (some error_callback))
    refuse-KeepsBlocks msg c =
        bind-KeepsBlocks k g (error-KeepsBlocks msg) λ _. pure-KeepsBlocks k g (outcome (pos 1) c d)

    finish_write-KeepsBlocks :
        (c : IoConfig) (bus : IoBus) (dev : IoDev) (v : ℕ)
        → KeepsBlocks k g
            (finish_write drivers c d bus dev v (some success_callback) (some error_callback))
    unfolding finish_write
    finish_write-KeepsBlocks c bus dev v =
        bind-KeepsBlocks k g (dev_write-KeepsBlocks bus dev v) λ r.
          if-KeepsBlocks k g (ltb_ℤ (pos 0) r.0)
            (bind-KeepsBlocks k g (success-KeepsBlocks d)
              λ _. pure-KeepsBlocks k g (outcome (pos 0) (store_dev c d bus r.1) d))
            (pure-KeepsBlocks k g (outcome (pos 0) (store_dev c d bus r.1) d))

    perform_write-KeepsBlocks :
        (c : IoConfig) (bus : IoBus) (dev : IoDev)
        → KeepsBlocks k g
            (perform_write drivers c d bus dev (some success_callback) (some error_callback))
    unfolding perform_write
    perform_write-KeepsBlocks c bus dev =
        if-KeepsBlocks k g (eqb_ℤ d.idx_sub_dev idx_invalid)
          (finish_write-KeepsBlocks c bus dev d.value)
          (bind-KeepsBlocks k g (dev_read-KeepsBlocks bus dev d.value) λ r.
            if-KeepsBlocks k g (ltb_ℤ (pos 0) r.rc)
              (bind-KeepsBlocks k g (deref-KeepsBlocks k g (shift_one d.idx_sub_dev))
                λ mask. finish_write-KeepsBlocks c bus r.dev (set_sub_dev d.value mask r.value))
              (refuse-KeepsBlocks (text "Could not read from device.") (store_dev c d bus r.dev)))

  finish_read-KeepsBlocks :
      (c : IoConfig) (d : IoData)
      → KeepsBlocks k g (finish_read c d (some success_callback) (some error_callback))
  unfolding finish_read
  finish_read-KeepsBlocks c d =
      let d' = record d { value = get_sub_dev (pos_part d.idx_sub_dev) d.value } in
      if-KeepsBlocks k g (eqb_ℤ d.idx_sub_dev idx_invalid)
        (bind-KeepsBlocks k g (success-KeepsBlocks d)
          λ _. pure-KeepsBlocks k g (outcome (pos 0) c d))
        (if-KeepsBlocks k g (not (ltb_ℤ d.idx_sub_dev (pos 0)) && ltb_ℤ d.idx_sub_dev (pos 32))
          (bind-KeepsBlocks k g (success-KeepsBlocks d')
            λ _. pure-KeepsBlocks k g (outcome (pos 0) c d'))
          (bind-KeepsBlocks k g (error-KeepsBlocks (text "Invalid sub device-index given.")) λ _.
            bind-KeepsBlocks k g (success-KeepsBlocks d)
              λ _. pure-KeepsBlocks k g (outcome (pos 0) c d)))

  module _ (c : IoConfig) (d : IoData) where
    perform_read-KeepsBlocks :
        (bus : IoBus) (dev : IoDev)
        → KeepsBlocks k g
            (perform_read drivers c d bus dev (some success_callback) (some error_callback))
    unfolding perform_read
    perform_read-KeepsBlocks bus dev =
        bind-KeepsBlocks k g (dev_read-KeepsBlocks bus dev d.value) λ r.
          if-KeepsBlocks k g (ltb_ℤ (pos 0) r.rc)
            (finish_read-KeepsBlocks (store_dev c d bus r.dev) (record d { value = r.value }))
            (pure-KeepsBlocks k g
              (outcome (pos 0) (store_dev c d bus r.dev) (record d { value = r.value })))

    perform_cmd-KeepsBlocks :
        (cmd : IoCmd)
        → KeepsBlocks k g
            (perform_cmd drivers c d cmd (some success_callback) (some error_callback))
    unfolding perform_cmd at_device
    perform_cmd-KeepsBlocks cmd_none = refuse-KeepsBlocks d (text "Illegal command.") c
    perform_cmd-KeepsBlocks cmd_write =
        bind-KeepsBlocks k g (deref-KeepsBlocks k g (elem_at c.busses d.idx_bus)) λ bus.
          bind-KeepsBlocks k g (deref-KeepsBlocks k g (elem_at bus.devices d.idx_dev))
            λ dev. perform_write-KeepsBlocks d c bus dev
    perform_cmd-KeepsBlocks cmd_read =
        bind-KeepsBlocks k g (deref-KeepsBlocks k g (elem_at c.busses d.idx_bus)) λ bus.
          bind-KeepsBlocks k g (deref-KeepsBlocks k g (elem_at bus.devices d.idx_dev))
            λ dev. perform_read-KeepsBlocks bus dev

    pub perform_io-KeepsBlocks :
        (cmd : IoCmd)
        → KeepsBlocks k g (perform_io drivers c d cmd (some success_callback) (some error_callback))
    unfolding perform_io device_missing
    perform_io-KeepsBlocks cmd =
        if-KeepsBlocks k g (eqb_ℤ d.idx_bus idx_invalid || not (ltb_ℤ d.idx_bus c.num_busses))
          (refuse-KeepsBlocks d (text "Bus ID not existing.") c)
          (bind-KeepsBlocks k g
            (if-KeepsBlocks k g (eqb_ℤ d.idx_dev idx_invalid) (pure-KeepsBlocks k g true) (
              bind-KeepsBlocks k g (deref-KeepsBlocks k g (elem_at c.busses d.idx_bus))
                λ bus. pure-KeepsBlocks k g (not (ltb_ℤ d.idx_dev bus.num_devices))))
            λ missing.
              if-KeepsBlocks k g missing (refuse-KeepsBlocks d (text "Device ID not existing.") c)
                (perform_cmd-KeepsBlocks cmd))
