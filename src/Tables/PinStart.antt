-- ===== src/Tables/PinStart.antt =====
-- src/io.c with src/dev_piface.c and src/pfio.c: from `io_init` on, what requests for the pins of a
-- PiFace come to.
use switcher_c.Base.{ℕ, zero, suc, ◌<◌, ◌≡◌, refl, ap, arith, none, some, List, [], ◌∷◌}
use switcher_c.Base.Bits.{bit-zero}
use switcher_c.Base.Int.{pos, pos_part}
use switcher_c.Base.Lists.{All, get_elem?}
use switcher_c.Config.{IoBus, IoDev, IoConfig, BusIsValid, piface}
use switcher_c.IoCore.{for_first}
use switcher_c.IoCore.Lifecycle.{init_one, open_one, io_init_bus, io_init}
use switcher_c.Pfio.Latch.{IsBoard}
use switcher_c.Pfio.Start.{OpensSpi, AllOff, init-AllOff}
use switcher_c.Piface
use switcher_c.Tables.{drivers}
use switcher_c.Tables.Discard.{when_some-none}
use switcher_c.Tables.PinMap.{PinCmd, pin_of, run_pins, spec_pins, run_pins-Refines}
use switcher_c.Tables.Prepared.{Grants, IsPreparedBus, io_init_bus-Ready, when_some-Returns}
use switcher_c.World.{Io, Env, World, Spi, and_then}
use switcher_c.World.Returns.{Returns, returns, bind, weaken}

-- A bus of type `piface`, which has no driver, and its one counted device.
pub record IsPifaceBus (bus : IoBus) : Type 0 where
  pub no_driver : bus.drv_handle ≡ none
  pub one_device : bus.num_devices ≡ pos 1
  pub dev : IoDev
  pub rest : List IoDev
  pub devices_are : bus.devices ≡ dev ∷ rest
  pub board : dev.drv_handle ≡ some piface

-- Bus `i` is the PiFace, and the buses before it are I2C buses as the configuration file
-- describes them.
unfoldable pub IsLast : ℕ → IoBus → List IoBus → Type 0
IsLast i bus [] = ⊥
IsLast zero bus (b ∷ busses) = b ≡ bus
IsLast (suc i) bus (b ∷ busses) = IsPreparedBus b × BusIsValid b × IsLast i bus busses

-- A loop over one counted element that its step gives back.
for_first-one :
    {A : Type 0} {I : World → Type 0} (f : A → Io A) {n : ℕ} {xs rest : List A} {x : A} {env : Env}
    {w : World}
    → n ≡ 1
    → xs ≡ x ∷ rest
    → Returns (λ x' w'. (x' ≡ x) × I w') (f x env w)
    → Returns (λ xs' w'. (xs' ≡ xs) × I w') (for_first n f xs env w)
unfolding for_first
for_first-one f {rest = rest} one is step =
    rw (one, is) (bind step λ x' w' (e, i). returns (ap (λ y. y ∷ rest) e, i))

module _ (env : Env) (grants : Grants env) (board : IsBoard env) (opens : OpensSpi env) where
  piface_init-AllOff :
      (bus : IoBus) (dev : IoDev) (w : World)
      → Returns
          (λ (rc, dev') w'. (dev' ≡ dev) × ((spi : Spi) × AllOff spi w'))
          (Piface.init bus dev env w)
  unfolding Piface.init
  piface_init-AllOff bus dev w =
      bind (init-AllOff env w board opens) λ rc w' (e, off). returns (refl, off)

  init_one-AllOff :
      (bus : IoBus) (dev : IoDev) (w : World)
      → dev.drv_handle ≡ some piface
      → Returns
          (λ dev' w'. (dev' ≡ dev) × ((spi : Spi) × AllOff spi w'))
          (init_one drivers bus dev env w)
  unfolding init_one
  init_one-AllOff bus dev w is =
      when_some-Returns _ _ is (bind (piface_init-AllOff bus dev w) λ _ w' off. returns off)

  io_init_bus-AllOff :
      (bus : IoBus) (w : World)
      → IsPifaceBus bus
      → Returns
          (λ bus' w'. (bus' ≡ bus) × ((spi : Spi) × AllOff spi w'))
          (io_init_bus drivers bus env w)
  unfolding io_init_bus open_one
  io_init_bus-AllOff bus w p =
      bind (when_some-none {P = λ b w'. b ≡ bus} _ _ p.no_driver (returns refl)) λ opened w1 same.
        rw same (
          bind
            (for_first-one _ (ap pos_part p.one_device) p.devices_are
              (init_one-AllOff bus p.dev w1 p.board))
            λ devices w2 (e, off). returns (ap (λ ds. record bus { devices = ds }) e, off))

  busses-AllOff :
      (i : ℕ) (bus : IoBus) (busses : List IoBus) (w : World)
      → IsLast i bus busses
      → IsPifaceBus bus
      → Returns
          (λ busses' w'. (get_elem? busses' i ≡ some bus) × ((spi : Spi) × AllOff spi w'))
          (for_first (suc i) (io_init_bus drivers) busses env w)
  unfolding for_first IsLast
  busses-AllOff zero bus [] w p _ = elim p [ ]
  busses-AllOff (suc i) bus [] w p _ = elim p [ ]
  busses-AllOff zero bus (b ∷ busses) w same p =
      rw same (bind (io_init_bus-AllOff bus w p) λ bus' w' (e, off). returns (ap some e, off))
  busses-AllOff (suc i) bus (b ∷ busses) w (prepared, valid, last) p =
      bind (io_init_bus-Ready env grants w.spi b w prepared valid refl)
        λ b' w1 _. bind (busses-AllOff i bus busses w1 last p) λ busses' w2 q. returns q

  io_init-AllOff :
      (c : IoConfig) (i : ℕ) (bus : IoBus) (w : World)
      → c.num_busses ≡ pos (suc i)
      → IsLast i bus c.busses
      → IsPifaceBus bus
      → Returns
          (λ (rc, c') w'.
            (c'.num_busses ≡ pos (suc i))
            × (get_elem? c'.busses i ≡ some bus)
            × ((spi : Spi) × AllOff spi w'))
          (io_init drivers c env w)
  unfolding io_init
  io_init-AllOff c i bus w count last p =
      rw (ap pos_part count) (
        bind (busses-AllOff i bus c.busses w last p)
          λ busses w' (at, off). returns (count, at, off))

  -- On a configuration whose last counted bus has no driver and counts one device, a PiFace,
  -- behind I2C buses as the configuration file describes them, with memory for every block, an
  -- SPI device that can be opened and asked, every transfer carried out, and a board that reads
  -- the byte last written to its outputs: `io_init`, and any sequence of reads and writes of the
  -- pins 0 to 7 behind it, end without undefined behaviour, and the reads give what an array of
  -- eight pins gives that starts with all of them 0.
  pub io_init-run_pins :
      (c : IoConfig) (i : ℕ) (bus : IoBus) (cmds : List PinCmd) (w : World)
      → c.num_busses ≡ pos (suc i)
      → IsLast i bus c.busses
      → IsPifaceBus bus
      → All (λ cmd. pin_of cmd < 8) cmds
      → Returns
          (λ (vs, _) w'. vs ≡ spec_pins cmds (λ k. 0))
          (and_then (io_init drivers c env w) λ (rc, c'). run_pins i 0 cmds c' env)
  io_init-run_pins c i bus cmds w count last p small =
      bind (io_init-AllOff c i bus w count last p) λ (rc, c') w1 (count', at, (spi, (opened, off))).
        weaken
          (run_pins-Refines c' i 0 {bus = bus} {dev = p.dev}
            (record {
              bus_bound = rw count' (omega arith);
              bus_at = at;
              dev_bound = rw p.one_device (omega arith);
              dev_at = rw p.devices_are refl;
              board = p.board;
            })
            env board cmds (λ k. 0) w1 small opened (λ k h. rw off (bit-zero k)))
          λ r w2 q. q.0
