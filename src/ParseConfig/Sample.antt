-- ===== src/ParseConfig/Sample.antt =====
-- src/parse_config.c, and src/io.c behind it: a file that ends with the sections of a PiFace, as
-- config/io_ext.ini does.
use mathlib.Core.Path.{subst}
use switcher_c.Base.{
  ℕ, zero, suc, ◌+◌, ◌<◌, ◌≡◌, ◌∙◌, refl, ap, arith, none, some, List, [], ◌∷◌, ◌++◌,
}
use switcher_c.Base.Int.{pos, suc_ℤ}
use switcher_c.Base.Lists.{
  All, All-weaken, All-get_elem?, First, get_elem?, get_elem?-lt, length, set,
}
use switcher_c.Base.Text.{Bytes}
use switcher_c.Config.{IoBus, IoDev, IoConfig, BusIsValid, max_busses, piface}
use switcher_c.IoCore.Init.{IsClearBus}
use switcher_c.IoCore.Lifecycle.{io_init}
use switcher_c.ParseConfig.Build.{Described, handle_all-then}
use switcher_c.ParseConfig.File.{BusSection, file_entries, last_of_file, BussesFit, HasMemory}
use switcher_c.ParseConfig.Whole.{fresh, fresh-Described, busses-Described}
use switcher_c.ParseConfig.{BusConfigs, handle_all, parse_config}
use switcher_c.Pfio.Latch.{IsBoard}
use switcher_c.Pfio.Start.{OpensSpi}
use switcher_c.Tables.PinMap.{PinCmd, pin_of, run_pins, spec_pins}
use switcher_c.Tables.PinStart.{IsPifaceBus, IsLast, io_init-run_pins}
use switcher_c.Tables.Prepared.{IsPreparedBus}
use switcher_c.Tables.{drivers}
use switcher_c.World.{Object, Env, World, and_then}
use switcher_c.World.Returns.{Returns, returns, bind, Returns-of_eq}
use switcher_c.ParseConfig.Board.{board_entries, BoardFits, board_bus, handle_all-board}

set-IsLast :
    (n : ℕ) (xs : List IoBus) (b : IoBus)
    → First IsPreparedBus n xs
    → All BusIsValid xs
    → n < length xs
    → IsLast n b (set xs n b)
unfolding IsLast
set-IsLast n [] b f a h = absurd (omega arith)
set-IsLast zero (x ∷ xs) b f a h = refl
set-IsLast (suc n) (x ∷ xs) b (p, f) (v, a) h = (p, v, set-IsLast n xs b f a (omega arith))

set-first :
    {A : Type 0} (xs : List A) {a : A} (x : A)
    → get_elem? xs 0 ≡ some a
    → (rest : List A) × (set xs 0 x ≡ x ∷ rest)
set-first [] x e = cc
set-first (y ∷ xs) x e = (xs, refl)

board_bus-IsPifaceBus :
    (bus : IoBus) (dev : IoDev)
    → IsClearBus bus
    → bus.drv_handle ≡ none
    → get_elem? bus.devices 0 ≡ some dev
    → IsPifaceBus (board_bus bus dev)
board_bus-IsPifaceBus bus dev clear no_driver at =
    let board = record dev { drv_handle = some piface } in
    let (rest, e) = set-first bus.devices board at in
    record {
      no_driver = no_driver;
      one_device = ap suc_ℤ clear.no_devices;
      dev = board;
      rest = rest;
      devices_are = e;
      board = refl;
    }

-- The buses of the file, and the PiFace behind them.
record IsSample (n : ℕ) (c : IoConfig) : Type 0 where
  counted : c.num_busses ≡ pos (suc n)
  board : IoBus
  last : IsLast n board c.busses
  is_board : IsPifaceBus board

module _ (env : Env) (memory : HasMemory env) where
  parse_config-IsSample :
      (filename section dev_section : Bytes) (bs : List BusSection) (c : IoConfig) (w : World)
      → c.num_busses ≡ pos 0
      → length c.busses ≡ max_busses
      → All (λ bus. IsClearBus bus × (bus.drv_handle ≡ none)) c.busses
      → length bs < max_busses
      → BussesFit [] bs
      → BoardFits (last_of_file [] bs) section dev_section
      → Returns
          (λ (rc, c') w'. (rc ≡ pos 0) × IsSample (length bs) c')
          (parse_config drivers filename
            (some (file_entries bs ++ board_entries section dev_section))
            c
            env
            w)
  unfolding parse_config
  parse_config-IsSample filename section dev_section bs c w none_yet size all lt fit fits =
      bind
        (handle_all-then (file_entries bs) (board_entries section dev_section) (fresh c) env w
          (busses-Described env memory c.busses clear bs 0 [] (fresh c) w
            (fresh-Described c none_yet size clear) (omega arith) fit)
          λ u w' (d, _). board u w' d)
        λ u w' sample. returns (refl, sample)
    where
      clear : All IsClearBus c.busses
      clear =
          All-weaken (λ bus. IsClearBus bus × (bus.drv_handle ≡ none)) IsClearBus c.busses
            (λ bus p. p.0) all

      board :
          (u : BusConfigs) (w' : World)
          → Described c.busses (0 + length bs) (last_of_file [] bs) u
          → Returns
              (λ u' _. IsSample (length bs) u'.config)
              (handle_all drivers u (board_entries section dev_section) env w')
      board u w' d =
          let n = length bs in
          let (bus, at) = get_elem?-lt u.config.busses n (omega (arith, d.size)) in
          let (free, no_driver) =
            All-get_elem? (λ b. IsClearBus b × (b.drv_handle ≡ none)) c.busses n all
              (d.others n bus (omega arith) at) in
          let (dev, dev_at) = get_elem?-lt bus.devices 0 (omega (arith, free.size)) in
          Returns-of_eq
            (handle_all-board u section dev_section n bus dev env w' (rw d.last_is fits)
              (d.next_bus ∙ ap pos (omega arith)) at dev_at)
            (record {
              counted = ap pos (omega arith);
              board = board_bus bus dev;
              last =
                  set-IsLast n u.config.busses (board_bus bus dev)
                    (subst (λ m. First IsPreparedBus m u.config.busses) (omega arith) d.prepared)
                    d.valid (omega (arith, d.size));
              is_board = board_bus-IsPifaceBus bus dev free no_driver dev_at;
            })

  -- From the configuration file to the pins. On an empty configuration whose buses have neither
  -- devices nor drivers, with a file as for `parse_config-Described` of at most seven buses and
  -- behind them a bus of type `piface` with a device `piface`, as in config/io_ext.ini (each of
  -- the two sections differs from the one before it, is shorter than 128 bytes and is named as
  -- the handler expects it), with memory for every block, an SPI device that can be opened and
  -- asked, every transfer carried out, and a board that reads the byte last written to its
  -- outputs: `parse_config`, `io_init`, and any sequence of reads and writes of the pins 0 to 7
  -- of the PiFace end without undefined behaviour, and the reads give what an array of eight pins
  -- gives that starts with all of them 0.
  pub parse_config-run_pins :
      (filename section dev_section : Bytes) (bs : List BusSection) (c : IoConfig)
      (cmds : List PinCmd) (w : World)
      → IsBoard env
      → OpensSpi env
      → c.num_busses ≡ pos 0
      → length c.busses ≡ max_busses
      → All (λ bus. IsClearBus bus × (bus.drv_handle ≡ none)) c.busses
      → length bs < max_busses
      → BussesFit [] bs
      → BoardFits (last_of_file [] bs) section dev_section
      → All (λ cmd. pin_of cmd < 8) cmds
      → Returns
          (λ (vs, _) w'. vs ≡ spec_pins cmds (λ k. 0))
          (and_then
            (parse_config drivers filename
              (some (file_entries bs ++ board_entries section dev_section))
              c
              env
              w)
            λ (_, c1) w1.
              and_then (io_init drivers c1 env w1) λ (_, c2). run_pins (length bs) 0 cmds c2 env)
  parse_config-run_pins filename section dev_section bs c cmds w on_board opens none_yet size all lt
        fit fits small =
      bind (parse_config-IsSample filename section dev_section bs c w none_yet size all lt fit fits)
        λ (_, c1) w1 (_, s).
          io_init-run_pins env (record { granted = λ l. memory.granted l Object.mcp23017_object })
            on_board opens c1 (length bs) s.board cmds w1 s.counted s.last s.is_board small
