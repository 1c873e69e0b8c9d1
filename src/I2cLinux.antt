-- ===== src/I2cLinux.antt =====
-- src/io_i2c_linux.c: the I2C bus driver over /dev/i2c-*. `ioctl`, `open`, `close` and the
-- `i2c_smbus_*` functions are calls out of the program.
pub mod Total
pub mod Traffic
pub mod Quiet
use switcher_c.Base.{ℕ, ◌-◌, Option, none, some, ◌++◌, ltb, if◌then◌else◌}
use switcher_c.Base.Int.{ℤ, pos, minus_one, ltb_ℤ, eqb_ℤ, to_unsigned, u8_mod}
use switcher_c.Base.Lists.{length, take}
use switcher_c.Base.Text.{Bytes, text}
use switcher_c.Config.{IoBus, IoDev, I2cLinuxBusData, I2cLinuxDevData, i2c_dev_len}
use switcher_c.World.{
  Object, Event, Io, ErrorCb, pure, undefined_behaviour, ◌>>=◌, ◌>>◌, deref, call, emit,
  strerror_now,
}
use switcher_c.Libc.{strtol}

abbrev buf_len : ℕ
buf_len = 256

-- The callback, if there is one.
abbrev pub report : ErrorCb → Bytes → Io (Unit {0})
report none msg = pure tt
report (some f) msg = f msg

unfoldable pub i2c_linux_set_addr : IoBus → IoDev → ErrorCb → Io ℤ
i2c_linux_set_addr bus dev cb_error = do
  bus_data ← deref bus.bus_data
  dev_bus_data ← deref dev.dev_bus_data
  rc ← call (Event.set_slave bus_data.fh dev_bus_data.address)
  if ltb_ℤ rc (pos 0)
      then (do
        reason ← strerror_now
        report cb_error (take (buf_len - 1) (text "ioctl error: " ++ reason))
        pure minus_one)
      else pure (pos 0)

unfoldable pub i2c_linux_write_byte : IoBus → IoDev → ℕ → ErrorCb → Io ℤ
i2c_linux_write_byte bus dev value cb_error = do
  i2c_linux_set_addr bus dev cb_error
  bus_data ← deref bus.bus_data
  call (Event.smbus_write_byte bus_data.fh value)

-- The result with what `*value` holds afterwards; `value` is what it held before.
abbrev pub store_byte : ℤ → ℕ → ℤ × ℕ
store_byte read_data value =
    if ltb_ℤ read_data (pos 0) then (minus_one, value) else (pos 0, to_unsigned u8_mod read_data)

unfoldable pub i2c_linux_read_byte : IoBus → IoDev → ℕ → ErrorCb → Io (ℤ × ℕ)
i2c_linux_read_byte bus dev value cb_error = do
  i2c_linux_set_addr bus dev cb_error
  bus_data ← deref bus.bus_data
  read_data ← call (Event.smbus_read_byte bus_data.fh)
  pure (store_byte read_data value)

unfoldable pub i2c_linux_write_byte_data : IoBus → IoDev → ℕ → ℕ → ErrorCb → Io ℤ
i2c_linux_write_byte_data bus dev command value cb_error = do
  i2c_linux_set_addr bus dev cb_error
  bus_data ← deref bus.bus_data
  call (Event.smbus_write_byte_data bus_data.fh command value)

unfoldable pub i2c_linux_read_byte_data : IoBus → IoDev → ℕ → ℕ → ErrorCb → Io (ℤ × ℕ)
i2c_linux_read_byte_data bus dev command value cb_error = do
  i2c_linux_set_addr bus dev cb_error
  bus_data ← deref bus.bus_data
  read_data ← call (Event.smbus_read_byte_data bus_data.fh command)
  pure (store_byte read_data value)

-- `open` reads the device name up to its NUL; a name that fills the field has none.
unfoldable pub i2c_linux_open : IoBus → Io (ℤ × IoBus)
i2c_linux_open bus = do
  bus_data ← deref bus.bus_data
  fh ←
      (if ltb (length bus_data.device) i2c_dev_len
        then call (Event.open_device bus_data.device)
        else undefined_behaviour)
  let opened = record bus { bus_data = some (record bus_data { fh = fh }) }
  pure (if ltb_ℤ fh (pos 0) then (pos 1, opened) else (pos 0, opened))

unfoldable pub i2c_linux_close : IoBus → Io ℤ
i2c_linux_close bus = do
  bus_data ← deref bus.bus_data
  rc ← call (Event.close_device bus_data.fh)
  pure (if ltb_ℤ rc (pos 0) then pos 1 else pos 0)

-- `strncpy` copies at most the size of the field.
unfoldable pub get_i2c_linux_bus_data : Bytes → Io (Option I2cLinuxBusData)
get_i2c_linux_bus_data parameter = do
  p ← call (Event.malloc Object.bus_data_object)
  pure (
      if eqb_ℤ p (pos 0)
      then none
      else some (record { device = take i2c_dev_len parameter; fh = minus_one }))

unfoldable pub get_i2c_linux_dev_data : Bytes → Io (Option I2cLinuxDevData)
unfolding strtol
get_i2c_linux_dev_data parameter = do
  p ← call (Event.malloc Object.dev_data_object)
  pure (
      if eqb_ℤ p (pos 0)
      then none
      else some (record { address = to_unsigned u8_mod (strtol parameter 16).number }))

-- `free(NULL)` does nothing.
unfoldable pub discard_i2c_linux_bus_data : Option I2cLinuxBusData → Io (Unit {0})
discard_i2c_linux_bus_data none = pure tt
discard_i2c_linux_bus_data (some _) = emit (Event.free Object.bus_data_object)

unfoldable pub discard_i2c_linux_bus_dev_data : Option I2cLinuxDevData → Io (Unit {0})
discard_i2c_linux_bus_dev_data none = pure tt
discard_i2c_linux_bus_dev_data (some _) = emit (Event.free Object.dev_data_object)
