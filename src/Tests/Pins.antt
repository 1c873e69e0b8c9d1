-- ===== src/Tests/Pins.antt =====
-- src/pfio.c and src/dev_piface.c: the theorems on the PiFace, applied.
use switcher_c.Base.{◌%◌, ◌<◌, ◌≡◌, refl, arith, some, List, [], ◌∷◌, inl, inr, Option-cases}
use switcher_c.Base.Bits.{bit}
use switcher_c.Base.Int.{pos}
use switcher_c.Base.Lists.{All}
use switcher_c.Config.{DevDrv, IoBus, IoConfig, cmd_write, IoDev}
use switcher_c.Http.{error_callback, success_callback}
use switcher_c.Tables.PinMap.{PinCmd, pin_of, get_pin, spec_pins, run_pins, run_pins-Refines}
use switcher_c.Tables.Board.{perform_io-piface_pin}
use switcher_c.IoCore.{perform_io, set_sub_dev, store_dev, outcome}
use switcher_c.Pfio.{digital_write, new_pin_values}
use switcher_c.Pfio.Pins.{Sends, digital_write-bit}
use switcher_c.Tables.{drivers}
use switcher_c.Tests.{set_pin, start, bus, pcf_dev}
use switcher_c.World.{Event, Log, Env, World, Spi, ok, and_then}
use switcher_c.World.Returns.{Returns}
use switcher_c.IoCore.Lifecycle.{io_init}
use switcher_c.Pfio.Latch.{written, latch, IsBoard}
use switcher_c.Tests.{free_bus}
use switcher_c.Base.{◌++◌, none}
use switcher_c.Base.Lists.{All-replicate}
use switcher_c.IoCore.Init.{IsClearBus}
use switcher_c.Libc.{strncmp_eq}
use switcher_c.ParseConfig.{parse_config}
use switcher_c.ParseConfig.Board.{board_entries}
use switcher_c.ParseConfig.File.{file_entries, HasMemory}
use switcher_c.ParseConfig.Sample.{parse_config-run_pins}
use switcher_c.Tests.Life.{file, file-BussesFit, free_bus-IsClearBus}
use switcher_c.Tests.{cleared}
use switcher_c.Base.Text.{text}

abbrev piface : Spi
piface = record { fd = pos 4; mode = 0; bitsperword = 8; maxspeed = pos 500000 }

-- The output port holds 0x0F.
abbrev spi_env : Env
spi_env = record { ret = λ _ _. pos 3; out = λ _ _. 0x0F; strerror = λ _. [] }

spi_env-Sends : Sends spi_env
spi_env-Sends = record { sent = λ l fd c p v. refl }

abbrev opened : World
opened = record start { spi = some piface }

digital_write-bit_example :
    let ask = Event.spi_message (pos 4) 0x41 0x12 0xff in
    let v = new_pin_values 0x0F 64 1 in
    (digital_write 6 1 spi_env opened
      ≡ ok tt (record opened { log = Event.spi_message (pos 4) 0x40 0x12 v ∷ ask ∷ [] }))
    × (bit 6 v ≡ 1)
digital_write-bit_example =
    digital_write-bit spi_env spi_env-Sends opened 6 1 6 refl (omega arith) (omega arith)

abbrev board_dev : IoDev
board_dev = record pcf_dev { drv_handle = some DevDrv.piface }

abbrev board_bus : IoBus
board_bus = record bus { num_devices = pos 1; devices = board_dev ∷ [] }

abbrev board_config : IoConfig
board_config = record { num_busses = pos 1; busses = board_bus ∷ [] }

-- The output port holds 0x0F, and output 5 is switched on.
perform_io-piface_pin_example :
    let ask = Event.spi_message (pos 4) 0x41 0x12 0xff in
    let v = set_sub_dev 1 32 0x0F in
    (perform_io drivers board_config set_pin cmd_write
        (some success_callback)
        (some error_callback)
        spi_env
        opened
      ≡ and_then
          (success_callback set_pin spi_env
            (record opened { log = Event.spi_message (pos 4) 0x40 0x12 (v % 256) ∷ ask ∷ [] }))
          (λ _ w.
            ok (outcome (pos 0) (store_dev board_config set_pin board_bus board_dev) set_pin) w))
    × (bit 5 v ≡ 1)
perform_io-piface_pin_example =
    perform_io-piface_pin board_config set_pin (some success_callback) (some error_callback) spi_env
      opened (record { bus_index = refl; bus_bound = omega arith; bus_at = refl })
      (record { dev_index = refl; dev_bound = omega arith; dev_at = refl }) spi_env-Sends refl refl
      5 (record { sub_index = refl; sub_bound = omega arith }) (omega arith)

-- A board that reads its outputs as they were written.
abbrev latch_env : Env
latch_env = record spi_env { out = λ l _. latch l }

latch-byte : (l : Log) → latch l % 256 ≡ latch l
latch-byte [] = refl
latch-byte (e ∷ l) = elim (Option-cases (written e)) [
  | inl none_written ↦ rw (latch, none_written) (latch-byte l)
  | inr (v, is) ↦ rw (latch, is) (omega arith)
]

-- Pin 3 is switched on, pin 0 off; of the two, pin 3 reads 1, and pin 7 is as it was.
abbrev pin_cmds : List PinCmd
pin_cmds = PinCmd.set_pin 3 5 ∷ PinCmd.set_pin 0 0 ∷ get_pin 3 ∷ get_pin 0 ∷ get_pin 7 ∷ []

pin_cmds-small : All (λ cmd. pin_of cmd < 8) pin_cmds
pin_cmds-small = (omega arith, (omega arith, (omega arith, (omega arith, (omega arith, tt)))))

latch_env-IsBoard : IsBoard latch_env
latch_env-IsBoard = record {
  sends = record { sent = λ l fd c p v. refl };
  latched = λ l fd. latch-byte l;
}

run_pins-Refines_example :
    Returns
      (λ (vs, c) w.
        (vs ≡ spec_pins pin_cmds (λ k. bit k 0)) × (c ≡ board_config) × (w.spi ≡ some piface))
      (run_pins 0 0 pin_cmds board_config latch_env opened)
run_pins-Refines_example =
    run_pins-Refines board_config 0 0
      (record {
        bus_bound = omega arith;
        bus_at = refl;
        dev_bound = omega arith;
        dev_at = refl;
        board = refl;
      })
      latch_env latch_env-IsBoard pin_cmds (λ k. bit k 0) opened pin_cmds-small refl (λ k h. refl)

latch_env-HasMemory : HasMemory latch_env
latch_env-HasMemory = record { granted = λ l o. refl }

parse_config-run_pins_example :
    Returns
      (λ (vs, _) w. vs ≡ spec_pins pin_cmds (λ k. 0))
      (and_then
        (parse_config drivers
          (text "io.ini")
          (some (file_entries file ++ board_entries (text "bus1") (text "device0")))
          cleared
          latch_env
          start)
        λ (_, c1) w1.
          and_then (io_init drivers c1 latch_env w1) λ (_, c2). run_pins 1 0 pin_cmds c2 latch_env)
unfolding strncmp_eq
parse_config-run_pins_example =
    parse_config-run_pins latch_env latch_env-HasMemory (text "io.ini") (text "bus1")
      (text "device0") file cleared pin_cmds start latch_env-IsBoard
      (record {
        granted = λ l. refl;
        opened = λ l. refl;
        mode_read = λ l fd. refl;
        bits_read = λ l fd. refl;
        speed_read = λ l fd. refl;
      })
      refl refl
      (All-replicate (λ b. IsClearBus b × (b.drv_handle ≡ none)) 8 free_bus
        (free_bus-IsClearBus, refl))
      (omega arith) file-BussesFit
      (record {
        follows = (refl, omega arith);
        is_bus = refl;
        dev_follows = (refl, omega arith);
        no_bus = refl;
        is_device = refl;
      })
      pin_cmds-small
