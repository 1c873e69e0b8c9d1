-- ===== src/Pcf8574.antt =====
-- src/pcf8574.c: the driver of the 8-bit PCF8574 port expander. It has no `init` and no `deinit`.
use switcher_c.Base.{ℕ, ◌%◌, if◌then◌else◌}
use switcher_c.Base.Int.{ℤ, pos, eqb_ℤ, u8_mod}
use switcher_c.Config.{IoBus, IoDev}
use switcher_c.I2cLinux.{i2c_linux_write_byte, i2c_linux_read_byte}
use switcher_c.Driver.{ReadReply, read_reply}
use switcher_c.World.{Io, ErrorCb, pure, ◌>>=◌}

unfoldable pub write : IoBus → IoDev → ℕ → ErrorCb → Io (ℤ × IoDev)
write bus dev value cb_error = do
  rc ← i2c_linux_write_byte bus dev (value % u8_mod) cb_error
  pure (if eqb_ℤ rc (pos 0) then pos 1 else pos 0, dev)

-- `*value` is set also when the read fails.
unfoldable pub read : IoBus → IoDev → ℕ → ErrorCb → Io ReadReply
read bus dev value cb_error = do
  (result, states) ← i2c_linux_read_byte bus dev 0 cb_error
  pure (read_reply (if eqb_ℤ result (pos 0) then pos 1 else pos 0) states dev)
