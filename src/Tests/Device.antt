-- ===== src/Tests/Device.antt =====
-- The theorems on the drivers and on the I2C bus, applied.
use switcher_c.Base.{◌≡◌, refl, arith, none, some, [], ◌∷◌}
use switcher_c.Base.Int.{pos, minus_one}
use switcher_c.Base.Lists.{take}
use switcher_c.Base.Text.{text}
use switcher_c.Config.{mcp23017_read, mcp23017_write, IoDev}
use switcher_c.Driver.{read_reply}
use switcher_c.Http.{error_callback}
use switcher_c.I2cLinux.{i2c_linux_write_byte_data}
use switcher_c.I2cLinux.Traffic.{write_byte_data-refused}
use switcher_c.IoCore.Wiring.{wired_dev}
use switcher_c.IoCore.{dev_read, dev_write}
use switcher_c.Http.Serve.{error_callback-IsQuiet}
use switcher_c.Mcp23017.{write, read}
use switcher_c.Mcp23017.Traffic.{Acks, wrote, asked, write-Acks, read-Acks}
use switcher_c.Pfio.{get_pin_number}
use switcher_c.Pfio.Pins.{get_pin_number-lowest}
use switcher_c.Tables.{drivers}
use switcher_c.Tables.Ready.{ReadyFor, mcp23017_ready, pcf8574_ready, read-Ready, write-Ready}
use switcher_c.Tests.{env, start, bus, mcp_dev, pcf_dev, mcp_wired, pcf_wired, mcp_data}
use switcher_c.World.{Event, Env, World, ok, and_then}
use switcher_c.World.Returns.{Returns}

env-Acks : Acks env
env-Acks = record { address_ack = λ l fh a. refl; write_ack = λ l fh r v. refl }

abbrev writing : IoDev
writing = record mcp_dev { dev_data = some (record { io_state = mcp23017_write }) }

abbrev reading : IoDev
reading = record mcp_dev { dev_data = some (record { io_state = mcp23017_read }) }

write-Acks_example :
    write bus mcp_dev 0xBEEF (some error_callback) env start
    ≡ ok
        (pos 1, writing)
        (record start {
          log = wrote (pos 3) 0x20 0x15 0xBE (
              wrote
                (pos 3)
                0x20
                0x14
                0xEF
                (wrote (pos 3) 0x20 0x01 0x00 (wrote (pos 3) 0x20 0x00 0x00 [])));
        })
write-Acks_example =
    write-Acks bus (some error_callback) env env-Acks mcp_dev mcp_wired refl start 0xBEEF

read-Acks_example :
    read bus mcp_dev 7 (some error_callback) env start
    ≡ ok (read_reply (pos 1) 0x8181 reading) (record start {
      log = asked (pos 3) 0x20 0x13 (
          asked (pos 3) 0x20 0x12 (wrote (pos 3) 0x20 0x01 0xFF (wrote (pos 3) 0x20 0x00 0xFF [])));
    })
read-Acks_example =
    read-Acks bus (some error_callback) env env-Acks mcp_dev mcp_wired refl start 7 {a = 0x81}
      {b = 0x81} (omega arith) (omega arith) refl refl

read-Ready_example :
    Returns
      (λ r w.
        (w.spi ≡ none) × ReadyFor bus.bus_data r.dev none × (wired_dev r.dev ≡ wired_dev pcf_dev))
      (dev_read drivers bus pcf_dev 5 (some error_callback) env start)
read-Ready_example =
    read-Ready bus pcf_dev 5 error_callback env start error_callback-IsQuiet
      (pcf8574_ready refl pcf_wired)

write-Ready_example :
    Returns
      (λ (rc, dev') w.
        (w.spi ≡ none) × ReadyFor bus.bus_data dev' none × (wired_dev dev' ≡ wired_dev mcp_dev))
      (dev_write drivers bus mcp_dev 5 (some error_callback) env start)
write-Ready_example =
    write-Ready bus mcp_dev 5 error_callback env start error_callback-IsQuiet
      (mcp23017_ready refl mcp_wired mcp_data refl)

-- The address is taken by another driver.
abbrev busy : Env
busy = record env { ret = λ _ e. elim e [ Event.set_slave _ _ ↦ minus_one | _ ↦ pos 0 ] }

abbrev selected : World
selected = record start { log = Event.set_slave (pos 3) 0x20 ∷ [] }

write_byte_data-refused_example :
    i2c_linux_write_byte_data bus mcp_dev 0x14 0xEF (some error_callback) busy start
    ≡ and_then (error_callback (take 255 (text "ioctl error: ")) busy selected) (λ _ w'.
      ok (pos 0) (record w' { log = Event.smbus_write_byte_data (pos 3) 0x14 0xEF ∷ w'.log }))
write_byte_data-refused_example =
    write_byte_data-refused bus mcp_dev mcp_wired none busy start 0x14 0xEF error_callback refl

get_pin_number-lowest_example : get_pin_number 0x28 ≡ some 3
get_pin_number-lowest_example = get_pin_number-lowest 2 3 (omega arith)
