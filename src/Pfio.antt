-- ===== src/Pfio.antt =====
-- src/pfio.c: the PiFace board, an MCP23S17 port expander on the SPI bus. Outputs are on port A,
-- inputs on port B. The static pointer `spi` is part of the `World`.
pub mod Total
pub mod Pins
pub mod Latch
pub mod Start
use Prim.Native.Nat.{bit_and, bit_or, bit_xor}
use switcher_c.Base.{
  ℕ, zero, suc, ◌++◌, ◌+◌, ◌-◌, ◌/◌, ◌%◌, ◌^◌, Option, none, some, ltb, leb, ◌==◌, if◌then◌else◌,
}
use switcher_c.Base.Int.{ℤ, pos, minus_one, ltb_ℤ, eqb_ℤ, to_int32, u8_mod}
use switcher_c.Base.Lists.{length}
use switcher_c.Base.Text.{Bytes, text}
use switcher_c.World.{
  Object, Event, Spi, Io, pure, undefined_behaviour, ◌>>=◌, ◌>>◌, call, call_out, emit,
  strerror_now, get_spi, set_spi, deref,
}

abbrev pub spi_write_cmd : ℕ
spi_write_cmd = 0x40

abbrev pub spi_read_cmd : ℕ
spi_read_cmd = 0x41

abbrev pub iodira : ℕ
iodira = 0x00

abbrev pub iodirb : ℕ
iodirb = 0x01

abbrev pub iocon : ℕ
iocon = 0x0A

abbrev pub gppub : ℕ
gppub = 0x0D

abbrev pub output_port : ℕ
output_port = 0x12

abbrev pub input_port : ℕ
input_port = 0x13

-- The message, and what `perror(0)` prints behind it.
unfoldable pub spi_error : Io (Unit {0})
spi_error = do
  emit (Event.put_stderr (text "ERROR: Can not send SPI message"))
  reason ← strerror_now
  emit (Event.put_stderr (reason ++ text "\n"))

-- One transfer of three bytes; the result is the third byte of `rxbuffer`. Where the transfer
-- fails that byte is whatever the environment left in it.
unfoldable pub spi_transfer : ℕ → ℕ → ℕ → Io ℕ
spi_transfer cmd port value = do
  spi ← get_spi
  (rc, received) ← call_out (Event.spi_message spi.fd cmd port value)
  if ltb_ℤ rc (pos 1) then spi_error else pure tt
  pure (received % u8_mod)

unfoldable pub spi_write : ℕ → ℕ → Io (Unit {0})
spi_write port value = do spi_transfer spi_write_cmd port value; pure tt

unfoldable pub spi_read : ℕ → Io ℕ
spi_read port = spi_transfer spi_read_cmd port 0xff

unfoldable pub read_input : Io ℕ
read_input = do v ← spi_read input_port; pure (bit_xor v 0xFF)

unfoldable pub read_output : Io ℕ
read_output = spi_read output_port

unfoldable pub write_output : ℕ → Io (Unit {0})
write_output value = spi_write output_port value

-- `1 << pin_number`, cut to a byte; a shift by the width of `int` or more is undefined.
unfoldable pub get_pin_bit_mask : ℕ → Option ℕ
get_pin_bit_mask pin_number = if ltb pin_number 32 then some (2 ^ pin_number % u8_mod) else none

unfoldable pub digital_read : ℕ → Io ℕ
digital_read pin_number = do
  current_pin_values ← read_input
  pin_bit_mask ← deref (get_pin_bit_mask pin_number)
  pure (if bit_and current_pin_values pin_bit_mask == pin_bit_mask then 1 else 0)

-- The new pin values; `~mask` within a byte is `255 - mask`.
unfoldable pub new_pin_values : ℕ → ℕ → ℕ → ℕ
new_pin_values old mask value = if ltb 0 value then bit_or old mask else bit_and old (255 - mask)

unfoldable pub digital_write : ℕ → ℕ → Io (Unit {0})
digital_write pin_number value = do
  pin_bit_mask ← deref (get_pin_bit_mask pin_number)
  old_pin_values ← read_output
  write_output (new_pin_values old_pin_values pin_bit_mask value)

-- The loop of `pfio_get_pin_number` on fuel; `none` means that the fuel ran out.
unfoldable pub pin_number_loop : ℕ → ℕ → ℕ → Option ℕ
pin_number_loop zero bit_pattern pin_number = none
pin_number_loop (suc fuel) bit_pattern pin_number =
    let rest = pin_number_loop fuel (bit_pattern / 2) (pin_number + 1) in
    if bit_and bit_pattern 1 == 0
    then if ltb 7 (pin_number + 1) then some 0 else rest
    else some pin_number

unfoldable pub get_pin_number : ℕ → Option ℕ
unfolding pin_number_loop
get_pin_number bit_pattern = pin_number_loop 8 bit_pattern 0

-- The loop that clears the pins, from `i`, for the given number of rounds.
unfoldable pub clear_pins : ℕ → ℕ → Io (Unit {0})
clear_pins zero i = pure tt
clear_pins (suc n) i = digital_write i 0 >> clear_pins n (i + 1)

abbrev fail : Bytes → Io ℤ
fail msg = emit (Event.put_stderr msg) >> pure minus_one

-- The set-up after the device answers.
unfoldable pub setup_ports : Io (Unit {0})
setup_ports = do
  spi_write iocon 8
  spi_write output_port 0x00
  spi_write iodira 0
  spi_write iodirb 0xFF
  spi_write gppub 0xFF
  clear_pins 8 1

abbrev pub spi_path : Bytes
spi_path = text "/dev/spidev0.0"

abbrev max_path : ℕ
max_path = 16

abbrev fresh_spi : Spi
fresh_spi = record { fd = pos 0; mode = 0; bitsperword = 0; maxspeed = pos 0 }

-- The three `ioctl` calls that read the settings, each into the block.
unfoldable pub read_settings : Spi → Io ℤ
read_settings s = do
  (rc, temp) ← call_out (Event.spi_rd_mode s.fd)
  if ltb_ℤ rc (pos 0) then fail (text "ERROR: Can not get spi mode") else (do
    let s = record s { mode = temp % u8_mod }
    set_spi (some s)
    (rc, temp) ← call_out (Event.spi_rd_bits_per_word s.fd)
    if ltb_ℤ rc (pos 0) then fail (text "ERROR: Can not get bits per word") else (do
      let s = record s { bitsperword = temp % u8_mod }
      set_spi (some s)
      (rc, maxspeed) ← call_out (Event.spi_rd_max_speed s.fd)
      if ltb_ℤ rc (pos 0) then fail (text "ERROR: Can not get max speed hz") else (do
        set_spi (some (record s { maxspeed = to_int32 (pos maxspeed) }))
        setup_ports
        pure (pos 0))))

-- What `malloc` leaves in the block is not read before it is set.
unfoldable pub init : Io ℤ
init = do
  p ← call (Event.malloc Object.spi_object)
  if eqb_ℤ p (pos 0) then (do set_spi none; pure minus_one) else (do
    set_spi (some fresh_spi)
    if leb max_path (length spi_path)
        then fail (text "ERROR: Bus and/or device number is invalid.")
        else (do
          fd ← call (Event.open_device spi_path)
          let s = record fresh_spi { fd = fd }
          set_spi (some s)
          if ltb_ℤ fd (pos 0) then fail (text "ERROR: Can not open device") else read_settings s))

-- `spi` still points at the freed block afterwards, which no use may follow: it is `none`.
unfoldable pub deinit : Io ℤ
deinit = do
  spi ← get_spi
  call (Event.close_device spi.fd)
  emit (Event.free Object.spi_object)
  set_spi none
  pure (pos 0)
