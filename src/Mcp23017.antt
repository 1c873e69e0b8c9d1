-- ===== src/Mcp23017.antt =====
-- src/mcp23017.c: the driver of the 16-bit MCP23017 port expander. Port A is the low byte. The
-- driver remembers in `io_state` the direction that it last programmed.
pub mod Total
pub mod Traffic
use Prim.Native.Nat.{bit_and, bit_or}
use switcher_c.Base.{ℕ, ◌*◌, ◌/◌, ◌%◌, none, some, Bool, true, false, if◌then◌else◌}
use switcher_c.Base.Int.{ℤ, pos, eqb_ℤ, u8_mod, u16_mod}
use switcher_c.Base.Text.{text}
use switcher_c.Config.{
  IoBus, IoDev, Mcp23017IoState, mcp23017_none, mcp23017_read, mcp23017_write, Mcp23017Data,
}
use switcher_c.Driver.{ReadReply, read_reply}
use switcher_c.I2cLinux.{i2c_linux_write_byte_data, i2c_linux_read_byte_data}
use switcher_c.World.{Object, Event, Io, ErrorCb, pure, ◌>>=◌, ◌>>◌, deref, call, emit, call_error}

abbrev pub iodira : ℕ
iodira = 0x00

abbrev pub iodirb : ℕ
iodirb = 0x01

abbrev pub gpioa : ℕ
gpioa = 0x12

abbrev pub gpiob : ℕ
gpiob = 0x13

abbrev pub olata : ℕ
olata = 0x14

abbrev pub olatb : ℕ
olatb = 0x15

unfoldable pub init : IoBus → IoDev → Io (ℤ × IoDev)
init bus dev = do
  p ← call (Event.malloc Object.mcp23017_object)
  pure (
      if eqb_ℤ p (pos 0)
      then (pos 1, record dev { dev_data = none })
      else (pos 0, record dev { dev_data = some (record { io_state = mcp23017_none }) }))

-- The byte for both direction registers.
abbrev pub direction : Mcp23017IoState → ℕ
direction mcp23017_write = 0x00
direction mcp23017_read = 0xFF
direction mcp23017_none = 0x00

-- The two direction writes; the state is set only when both succeed.
unfoldable pub configure_ports : IoBus → IoDev → Mcp23017IoState → ErrorCb → Io Mcp23017Data
configure_ports bus dev desired cb_error = do
  ra ← i2c_linux_write_byte_data bus dev iodira (direction desired) cb_error
  if eqb_ℤ ra (pos 0)
      then (do
        rb ← i2c_linux_write_byte_data bus dev iodirb (direction desired) cb_error
        pure (
            if eqb_ℤ rb (pos 0)
            then record { io_state = desired }
            else record { io_state = mcp23017_none }))
      else pure (record { io_state = mcp23017_none })

unfoldable pub configure_io : IoBus → IoDev → Mcp23017IoState → ErrorCb → Io Mcp23017Data
configure_io bus dev mcp23017_none cb_error = pure (record { io_state = mcp23017_none })
configure_io bus dev mcp23017_read cb_error = configure_ports bus dev mcp23017_read cb_error
configure_io bus dev mcp23017_write cb_error = configure_ports bus dev mcp23017_write cb_error

abbrev pub is_state : Mcp23017IoState → Mcp23017IoState → Bool
is_state mcp23017_none mcp23017_none = true
is_state mcp23017_read mcp23017_read = true
is_state mcp23017_write mcp23017_write = true
is_state _ _ = false

-- `if (dev_data->io_state != desired) configure`, and the device with its new state.
unfoldable pub ensure_state : IoBus → IoDev → Mcp23017IoState → ErrorCb → Io Mcp23017Data
ensure_state bus dev desired cb_error = do
  dev_data ← deref dev.dev_data
  if is_state dev_data.io_state desired
      then pure dev_data
      else configure_io bus dev desired cb_error

abbrev with_data : IoDev → Mcp23017Data → IoDev
with_data dev dev_data = record dev { dev_data = some dev_data }

-- The two latch writes.
unfoldable pub write_latches : IoBus → IoDev → ℕ → ErrorCb → Io ℤ
write_latches bus dev states cb_error = do
  ra ← i2c_linux_write_byte_data bus dev olata (bit_and (states % u8_mod) 0x00FF) cb_error
  if eqb_ℤ ra (pos 0)
      then (do
        rb ← i2c_linux_write_byte_data bus dev olatb (bit_and states 0xFF00 / 256 % u8_mod) cb_error
        pure (if eqb_ℤ rb (pos 0) then pos 1 else pos 0))
      else pure (pos 0)

unfoldable pub write : IoBus → IoDev → ℕ → ErrorCb → Io (ℤ × IoDev)
write bus dev value cb_error = do
  let states = value % u16_mod
  dev_data ← ensure_state bus dev mcp23017_write cb_error
  let dev' = with_data dev dev_data
  if is_state dev_data.io_state mcp23017_write
      then (do rc ← write_latches bus dev' states cb_error; pure (rc, dev'))
      else (do
        call_error cb_error (text "Could not configure given MCP23017 in write mode")
        pure (pos 0, dev'))

-- The two port reads; `value` is what `*value` held before.
unfoldable pub read_ports : IoBus → IoDev → ℕ → ErrorCb → Io ReadReply
read_ports bus dev value cb_error = do
  (ra, states_a) ← i2c_linux_read_byte_data bus dev gpioa 0x00 cb_error
  if eqb_ℤ ra (pos 0)
      then (do
        (rb, states_b) ← i2c_linux_read_byte_data bus dev gpiob 0x00 cb_error
        pure (
            if eqb_ℤ rb (pos 0)
            then read_reply (pos 1) (bit_or (bit_or 0x00 states_a) (states_b * 256)) dev
            else read_reply (pos 0) value dev))
      else pure (read_reply (pos 0) value dev)

unfoldable pub read : IoBus → IoDev → ℕ → ErrorCb → Io ReadReply
read bus dev value cb_error = do
  dev_data ← ensure_state bus dev mcp23017_read cb_error
  let dev' = with_data dev dev_data
  if is_state dev_data.io_state mcp23017_read then read_ports bus dev' value cb_error else (do
    call_error cb_error (text "Could not configure givem MCP23017 in read mode")
    pure (read_reply (pos 0) value dev'))

unfoldable pub deinit : IoBus → IoDev → Io (ℤ × IoDev)
deinit bus dev = do
  elim dev.dev_data [ none ↦ pure tt | some _ ↦ emit (Event.free Object.mcp23017_object) ]
  pure (pos 0, record dev { dev_data = none })
