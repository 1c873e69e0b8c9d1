-- ===== src/Tests/Io.antt =====
-- src/io.c: the theorems on `perform_io` and on an empty configuration, applied.
use switcher_c.Base.{◌/◌, ◌%◌, ap, ◌≡◌, refl, inr, arith, none, some, [], ◌∷◌}
use switcher_c.Base.Bits.{bit}
use switcher_c.Base.Int.{pos_part, pos, negsuc, minus_one}
use switcher_c.Base.Text.{text}
use switcher_c.Config.{
  cmd_write, cmd_read, mcp23017_read, mcp23017_write, IoDev, IoBus, IoConfig, IoData,
}
use switcher_c.Driver.{ReadReply}
use switcher_c.I2cLinux.{i2c_linux_write_byte_data, i2c_linux_read_byte_data, i2c_linux_set_addr}
use switcher_c.Mcp23017
use switcher_c.Http.{success_callback, error_callback}
use switcher_c.IoCore.{
  dev_read, perform_io, finish_write, refuse, set_sub_dev, store_dev, outcome, SuccessCb,
}
use switcher_c.Http.Serve.{error_callback-IsQuiet, success_callback-IsQuiet}
use switcher_c.IoCore.Effects.{
  NamesSub, SubOutOfRange, perform_io-write_sub, perform_io-read_sub, perform_io-write_out_of_range,
  perform_io-read_out_of_range, perform_io-no_driver,
}
use switcher_c.IoCore.Requests.{no_device, perform_io-refuse, perform_io-negative_bus}
use switcher_c.IoCore.Serve.{Served, digit, perform_io-Served}
use switcher_c.Mcp23017.Traffic.{wrote}
use switcher_c.Tables.EndToEnd.{
  perform_io-mcp23017_pin, perform_io-pcf8574_write, perform_io-pcf8574_unread,
}
use switcher_c.Tables.{drivers}
use switcher_c.Tables.Ready.{contract}
use switcher_c.Tests.{
  pcf_wired, mcp_wired, env, start, config, bus, mcp_dev, pcf_dev, set_pin, far_pin, names_bus,
  names_dev, config-Serves,
}
use switcher_c.World.{Event, Env, World, Log, ErrorCb, ok, fault, and_then}
use switcher_c.World.Returns.{Returns}

abbrev cs : SuccessCb
cs = some success_callback

abbrev ce : ErrorCb
ce = some error_callback

-- The read of the MCP23017 with the direction not yet set: both direction registers, both ports.
abbrev select : Event
select = Event.set_slave (pos 3) 0x20

abbrev read_log : Log
read_log =
    Event.smbus_read_byte_data (pos 3) 0x13
    ∷ select
    ∷ Event.smbus_read_byte_data (pos 3) 0x12
    ∷ select
    ∷ Event.smbus_write_byte_data (pos 3) 0x01 0xFF
    ∷ select
    ∷ Event.smbus_write_byte_data (pos 3) 0x00 0xFF
    ∷ select
    ∷ []

abbrev read_world : World
read_world = record start { log = read_log }

abbrev reply : ReadReply
reply = record {
  rc = pos 1;
  value = 0x8181;
  dev = record mcp_dev { dev_data = some (record { io_state = mcp23017_read }) };
}

first_read : dev_read drivers bus mcp_dev 1 ce env start ≡ ok reply read_world
unfolding dev_read Mcp23017.read Mcp23017.ensure_state Mcp23017.configure_io
    Mcp23017.configure_ports Mcp23017.read_ports i2c_linux_write_byte_data i2c_linux_read_byte_data
    i2c_linux_set_addr
first_read = refl

sub_5 : NamesSub set_pin 5
sub_5 = record { sub_index = refl; sub_bound = omega arith }

sub_40 : SubOutOfRange far_pin
sub_40 = (λ e. absurd (cc e), λ i e. let h : 40 ≡ i = ap pos_part e in omega arith)

abbrev writing : IoDev
writing = record mcp_dev { dev_data = some (record { io_state = mcp23017_write }) }

perform_io-Served_example :
    Returns
      (Served drivers contract error_callback success_callback error_callback-IsQuiet
        success_callback-IsQuiet env none config)
      (perform_io drivers config set_pin cmd_write cs ce env start)
perform_io-Served_example =
    perform_io-Served drivers contract error_callback success_callback error_callback-IsQuiet
      success_callback-IsQuiet env set_pin cmd_write start config-Serves refl (omega arith)
      (omega arith) (inr (digit 5 refl (omega arith)))

perform_io-write_sub_example :
    let v = set_sub_dev 1 32 0x8181 in
    (perform_io drivers config set_pin cmd_write cs ce env start
      ≡ finish_write drivers config set_pin bus reply.dev v cs ce env read_world)
    × (bit 7 v ≡ bit 7 0x8181)
perform_io-write_sub_example =
    perform_io-write_sub drivers config set_pin cs ce env start (names_bus (pos 5))
      (names_dev (pos 5)) reply read_world first_read refl 7 sub_5 (omega arith)

perform_io-read_sub_example :
    perform_io drivers config set_pin cmd_read cs ce env start
    ≡ and_then (success_callback (record set_pin { value = bit 5 0x8181 }) env read_world) (λ _ w.
      ok
        (outcome
          (pos 0)
          (store_dev config set_pin bus reply.dev)
          (record set_pin { value = bit 5 0x8181 }))
        w)
perform_io-read_sub_example =
    perform_io-read_sub drivers config set_pin cs ce env start (names_bus (pos 5))
      (names_dev (pos 5)) reply read_world first_read refl sub_5

perform_io-write_out_of_range_example :
    perform_io drivers config far_pin cmd_write cs ce env start ≡ fault
perform_io-write_out_of_range_example =
    perform_io-write_out_of_range drivers config far_pin cs ce env start (names_bus (pos 40))
      (names_dev (pos 40)) reply read_world first_read refl sub_40

perform_io-read_out_of_range_example :
    perform_io drivers config far_pin cmd_read cs ce env start
    ≡ and_then (error_callback (text "Invalid sub device-index given.") env read_world) (λ _ w1.
      and_then (success_callback (record far_pin { value = 0x8181 }) env w1) (λ _ w2.
        ok
          (outcome
            (pos 0)
            (store_dev config far_pin bus reply.dev)
            (record far_pin { value = 0x8181 }))
          w2))
perform_io-read_out_of_range_example =
    perform_io-read_out_of_range drivers config far_pin cs ce env start (names_bus (pos 40))
      (names_dev (pos 40)) reply read_world first_read refl sub_40

abbrev pcf_pin : IoData
pcf_pin = record set_pin { idx_dev = pos 1 }

-- The PCF8574 does not answer a read.
abbrev broken_env : Env
broken_env = record env { ret = λ _ e. elim e [ Event.smbus_read_byte _ ↦ minus_one | _ ↦ pos 0 ] }

abbrev broken_world : World
broken_world = record start {
  log = Event.smbus_read_byte (pos 3) ∷ Event.set_slave (pos 3) 0x38 ∷ [];
}

perform_io-pcf8574_unread_example :
    perform_io drivers config pcf_pin cmd_write cs ce broken_env start
    ≡ and_then
        (error_callback (text "Could not read from device.") broken_env broken_world)
        (λ _ w. ok (outcome (pos 1) (store_dev config pcf_pin bus pcf_dev) pcf_pin) w)
perform_io-pcf8574_unread_example =
    perform_io-pcf8574_unread config pcf_pin cs ce broken_env start
      (record { bus_index = refl; bus_bound = omega arith; bus_at = refl })
      (record { dev_index = refl; dev_bound = omega arith; dev_at = refl }) pcf_wired refl
      (λ e. absurd (cc e)) refl refl

-- A device whose section names a driver that does not exist.
abbrev odd_bus : IoBus
odd_bus = record bus { num_devices = pos 3 }

abbrev odd_config : IoConfig
odd_config = record config { busses = odd_bus ∷ [] }

abbrev odd_pin : IoData
odd_pin = record set_pin { idx_dev = pos 2 }

perform_io-no_driver_example :
    perform_io drivers odd_config odd_pin cmd_read cs ce env start ≡ fault
perform_io-no_driver_example =
    perform_io-no_driver drivers odd_config odd_pin cs ce env start
      (record { bus_index = refl; bus_bound = omega arith; bus_at = refl })
      (record { dev_index = refl; dev_bound = omega arith; dev_at = refl }) cmd_read
      (λ e. absurd (cc e)) refl

abbrev third_dev : IoData
third_dev = record set_pin { idx_dev = pos 2 }

perform_io-refuse_example :
    perform_io drivers config third_dev cmd_write cs ce env start
    ≡ refuse (text "Device ID not existing.") config third_dev ce env start
perform_io-refuse_example = perform_io-refuse drivers config third_dev cs ce env start (
    no_device (record { bus_index = refl; bus_bound = omega arith; bus_at = refl })
      (inr (omega arith)))

abbrev below : IoData
below = record set_pin { idx_bus = negsuc 1 }

perform_io-negative_bus_example : perform_io drivers config below cmd_read cs ce env start ≡ fault
perform_io-negative_bus_example =
    perform_io-negative_bus drivers config below cmd_read cs ce env start 0 (omega arith) refl
      (λ e. absurd (cc e))

-- The pin is set on the chip, which was not yet configured: read with both ports as inputs, then
-- both as outputs, and the two latches.
perform_io-mcp23017_pin_example :
    let v = set_sub_dev 1 32 0x8181 in
    (perform_io drivers config set_pin cmd_write cs ce env start
      ≡ and_then
          (success_callback set_pin env (record start {
            log = wrote (pos 3) 0x20 0x15 (v / 256 % 256) (
                wrote
                  (pos 3)
                  0x20
                  0x14
                  (v % 256)
                  (wrote (pos 3) 0x20 0x01 0x00 (wrote (pos 3) 0x20 0x00 0x00 read_log)));
          }))
          (λ _ w. ok (outcome (pos 0) (store_dev config set_pin bus writing) set_pin) w))
    × (bit 5 v ≡ 1)
perform_io-mcp23017_pin_example =
    perform_io-mcp23017_pin config set_pin cs ce env start (names_bus (pos 5)) (names_dev (pos 5))
      (record { address_ack = λ l fh a. refl; write_ack = λ l fh r v. refl }) mcp_wired refl refl
      {a = 0x81} {b = 0x81} (omega arith) (omega arith) refl refl 5 sub_5 (omega arith)

abbrev pcf_all : IoData
pcf_all = record set_pin { idx_dev = pos 1; idx_sub_dev = negsuc 0; value = 0x3A5 }

-- The value is cut to a byte, and the reply 0 is success.
perform_io-pcf8574_write_example :
    perform_io drivers config pcf_all cmd_write cs ce env start
    ≡ and_then
        (success_callback pcf_all env (record start {
          log = Event.smbus_write_byte (pos 3) 0xA5 ∷ Event.set_slave (pos 3) 0x38 ∷ [];
        }))
        (λ _ w. ok (outcome (pos 0) (store_dev config pcf_all bus pcf_dev) pcf_all) w)
perform_io-pcf8574_write_example =
    perform_io-pcf8574_write config pcf_all cs ce env start
      (record { bus_index = refl; bus_bound = omega arith; bus_at = refl })
      (record { dev_index = refl; dev_bound = omega arith; dev_at = refl }) pcf_wired refl refl refl
      refl
