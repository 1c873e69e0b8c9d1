-- ===== src/Tables/PinMap.antt =====
-- src/io.c with src/dev_piface.c and src/pfio.c: sequences of requests for the pins of a PiFace, and
-- what they come to on an array of eight pins.
use switcher_c.Base.{
  ℕ, suc, ◌%◌, ◌^◌, ◌<◌, ◌≡◌, ◌∙◌, refl, ap, arith, some, List, [], ◌∷◌, ◌==◌, if◌then◌else◌,
}
use switcher_c.Base.Bits.{bit, bit-low_byte}
use switcher_c.Base.Int.{pos, ◌≤ℤ◌, u8_mod}
use switcher_c.Base.Lists.{All, get_elem?, set-same}
use switcher_c.Config.{IoBus, IoDev, IoConfig, IoData, IoCmd, piface, cmd_write, cmd_read}
use switcher_c.Http.{success_callback, error_callback}
use switcher_c.IoCore.{Outcome, perform_io, store_dev, set_sub_dev}
use switcher_c.IoCore.Effects.{NamesSub, perform_io-read_sub}
use switcher_c.IoCore.SubDevice.{set_sub_dev-bit}
use switcher_c.IoCore.Requests.{NamesBus, NamesDev}
use switcher_c.Pfio.Latch.{latch, IsBoard}
use switcher_c.Tables.Board.{perform_io-piface_pin, dev_read-piface}
use switcher_c.Tables.{drivers}
use switcher_c.World.{Log, Env, World, Spi, Io, pure, ◌>>=◌}
use switcher_c.World.Returns.{Returns, returns, bind, Returns-of_eq}

pub data PinCmd : Type 0 where
  set_pin : ℕ → ℕ → PinCmd
  get_pin : ℕ → PinCmd

abbrev pub pin_of : PinCmd → ℕ
pin_of (set_pin n v) = n
pin_of (get_pin n) = n

-- The request to device `j` of bus `i`.
abbrev pub pin_data : ℕ → ℕ → ℕ → ℕ → IoData
pin_data i j n v = record { idx_bus = pos i; idx_dev = pos j; idx_sub_dev = pos n; value = v }

abbrev pub ask : IoCmd → IoData → IoConfig → Io Outcome
ask cmd d c = perform_io drivers c d cmd (some success_callback) (some error_callback)

-- The requests one after the other, with the values that the reads give.
unfoldable pub run_pins : ℕ → ℕ → List PinCmd → IoConfig → Io (List ℕ × IoConfig)
run_pins i j [] c = pure ([], c)
run_pins i j (set_pin n v ∷ cmds) c = do
  o ← ask cmd_write (pin_data i j n v) c
  run_pins i j cmds o.config
run_pins i j (get_pin n ∷ cmds) c = do
  o ← ask cmd_read (pin_data i j n 0) c
  (vs, c') ← run_pins i j cmds o.config
  pure (o.data_out.value ∷ vs, c')

-- The same on the pins themselves, each 0 or 1.
abbrev pub update : ℕ → ℕ → (ℕ → ℕ) → ℕ → ℕ
update n v pins k = if n == k then (if v == 0 then 0 else 1) else pins k

unfoldable pub spec_pins : List PinCmd → (ℕ → ℕ) → List ℕ
spec_pins [] pins = []
spec_pins (set_pin n v ∷ cmds) pins = spec_pins cmds (update n v pins)
spec_pins (get_pin n ∷ cmds) pins = pins n ∷ spec_pins cmds pins

-- Device `j` of bus `i` is there, and is a PiFace.
pub record IsPiface (c : IoConfig) (i j : ℕ) (bus : IoBus) (dev : IoDev) : Type 0 where
  pub bus_bound : pos (suc i) ≤ℤ c.num_busses
  pub bus_at : get_elem? c.busses i ≡ some bus
  pub dev_bound : pos (suc j) ≤ℤ bus.num_devices
  pub dev_at : get_elem? bus.devices j ≡ some dev
  pub board : dev.drv_handle ≡ some piface

-- The bits of the latch are the pins.
abbrev Shows : Log → (ℕ → ℕ) → Type 0
Shows l pins = (k : ℕ) → k < 8 → bit k (latch l) ≡ pins k

written-Shows :
    (n v old : ℕ) (l : Log) (pins : ℕ → ℕ)
    → n < 8
    → ((k : ℕ) → k < 8 → bit k old ≡ pins k)
    → latch l ≡ set_sub_dev v (2 ^ n) old % u8_mod
    → Shows l (update n v pins)
written-Shows n v old l pins lt shows e k h = rw e (
    bit-low_byte k _ h
    ∙ set_sub_dev-bit v n old k (omega arith) (omega arith)
    ∙ ap (λ b. if n == k then (if v == 0 then 0 else 1) else b) (shows k h))

module _ (c : IoConfig) (i j : ℕ) {bus : IoBus} {dev : IoDev} (there : IsPiface c i j bus dev) where
  names_bus : (n v : ℕ) → NamesBus c (pin_data i j n v) i bus
  names_bus n v = record { bus_index = refl; bus_bound = there.bus_bound; bus_at = there.bus_at }

  names_dev : (n v : ℕ) → NamesDev (pin_data i j n v) bus j dev
  names_dev n v = record { dev_index = refl; dev_bound = there.dev_bound; dev_at = there.dev_at }

  names_sub : (n v : ℕ) → n < 8 → NamesSub (pin_data i j n v) n
  names_sub n v lt = record { sub_index = refl; sub_bound = omega arith }

  store_dev-same : (n v : ℕ) → store_dev c (pin_data i j n v) bus dev ≡ c
  unfolding store_dev
  store_dev-same n v =
      rw (set-same bus.devices j there.dev_at)
        (ap (λ bs. record c { busses = bs }) (set-same c.busses i there.bus_at))

  module _ (env : Env) (env_board : IsBoard env) {spi : Spi} where
    write_step :
        (n v : ℕ) (w : World)
        → n < 8
        → w.spi ≡ some spi
        → Returns
            (λ o w'.
              (o.config ≡ c)
              × (w'.spi ≡ some spi)
              × (latch w'.log ≡ set_sub_dev v (2 ^ n) (latch w.log) % u8_mod))
            (ask cmd_write (pin_data i j n v) c env w)
    unfolding success_callback
    write_step n v w lt opened =
        Returns-of_eq
          (perform_io-piface_pin c (pin_data i j n v) (some success_callback) (some error_callback)
            env w (names_bus n v) (names_dev n v) env_board.sends opened there.board 0
            (names_sub n v lt) (omega arith)).0
          (store_dev-same n v, opened, rw (env_board.latched w.log spi.fd) (omega arith))

    read_step :
        (n : ℕ) (w : World)
        → n < 8
        → w.spi ≡ some spi
        → Returns
            (λ o w'.
              (o.config ≡ c)
              × (w'.spi ≡ some spi)
              × (latch w'.log ≡ latch w.log)
              × (o.data_out.value ≡ bit n (latch w.log)))
            (ask cmd_read (pin_data i j n 0) c env w)
    unfolding success_callback
    read_step n w lt opened =
        let d = pin_data i j n 0 in
        Returns-of_eq
          (perform_io-read_sub drivers c d (some success_callback) (some error_callback) env w
            (names_bus n 0) (names_dev n 0) _ _
            (dev_read-piface env env_board.sends bus dev (some error_callback) w opened there.board
              0)
            refl (names_sub n 0 lt))
          (store_dev-same n 0, opened, refl, ap (bit n) (env_board.latched w.log spi.fd))

    -- Any sequence of reads and writes of the pins 0 to 7 of a PiFace that is counted in the
    -- configuration, with the SPI device open, every transfer carried out, and a board that reads
    -- the byte last written to its outputs: the requests end without undefined behaviour, give
    -- the values that an array of eight pins gives (a write sets its pin to whether the value is
    -- not 0, and a read gives the pin), and leave the configuration and the SPI state as they
    -- were.
    pub run_pins-Refines :
        (cmds : List PinCmd) (pins : ℕ → ℕ) (w : World)
        → All (λ cmd. pin_of cmd < 8) cmds
        → w.spi ≡ some spi
        → ((k : ℕ) → k < 8 → bit k (latch w.log) ≡ pins k)
        → Returns
            (λ (vs, c') w'. (vs ≡ spec_pins cmds pins) × (c' ≡ c) × (w'.spi ≡ some spi))
            (run_pins i j cmds c env w)
    unfolding run_pins spec_pins
    run_pins-Refines [] pins w small opened shows = returns (refl, refl, opened)
    run_pins-Refines (set_pin n v ∷ cmds) pins w (lt, small) opened shows =
        bind (write_step n v w lt opened) λ o w1 (same, opened', l). rw same (
          run_pins-Refines cmds (update n v pins) w1 small opened'
            (written-Shows n v (latch w.log) w1.log pins lt shows l))
    run_pins-Refines (get_pin n ∷ cmds) pins w (lt, small) opened shows =
        bind (read_step n w lt opened) λ o w1 (same, opened', l, value). rw same (
          bind (run_pins-Refines cmds pins w1 small opened' (λ k h. ap (bit k) l ∙ shows k h))
            λ (vs, c') w2 (e, same', opened2).
              returns (rw (value, shows n lt, e) refl, same', opened2))
