-- ===== src/Tables/Start.antt =====
-- src/io.c: `io_init` on a configuration as the configuration file describes it.
use switcher_c.Base.{◌≡◌, ◌∙◌, refl, arith, List}
use switcher_c.Base.Int.{pos, pos_part}
use switcher_c.Base.Lists.{
  All, All-any, First, First-get_elem?, First-weaken, All-weaken, All-zip, length,
}
use switcher_c.Config.{IoBus, IoConfig, BusIsValid, IsValid, max_busses}
use switcher_c.IoCore.Lifecycle.{io_init_bus, io_init}
use switcher_c.IoCore.Loop.{for_first-First}
use switcher_c.IoCore.Ready.{IsReadyBus, Serves}
use switcher_c.Tables.{drivers}
use switcher_c.Tables.OpenBus.{IsOpenBus}
use switcher_c.Tables.Ready.{contract}
use switcher_c.Tables.Prepared.{Grants, IsPreparedBus, pos_part-le, io_init_bus-Ready}
use switcher_c.World.{Env, World}
use switcher_c.World.Returns.{Returns, returns, bind, weaken}

module _ (D : IoBus → Type 0) (holds : (bus : IoBus) → IsOpenBus bus → D bus) (env : Env)
    (c : IoConfig) (w : World) where
  -- What holds of every open bus holds of the whole array, if it did before.
  pub io_init-Opens :
      Grants env
      → IsValid c
      → First IsPreparedBus (pos_part c.num_busses) c.busses
      → All D c.busses
      → Returns
          (λ (rc, c') w'.
            (rc ≡ pos 0)
            × (Serves drivers contract w.spi c'
                × First IsOpenBus (pos_part c'.num_busses) c'.busses
                × All D c'.busses)
            × (w'.spi ≡ w.spi))
          (io_init drivers c env w)
  unfolding io_init
  io_init-Opens grants valid prepared all =
      bind
        (for_first-First IsPreparedBus
          (λ bus. IsReadyBus drivers contract w.spi bus × IsOpenBus bus)
          (λ bus. BusIsValid bus × D bus) (λ w'. w'.spi ≡ w.spi) (io_init_bus drivers) env
          (λ bus w' p v i.
            weaken (io_init_bus-Ready env grants w.spi bus w' p v.0 i)
              λ bus' w'' (q, v', k). (q, (v', holds bus' q.1), k))
          (pos_part c.num_busses) c.busses w
          (omega
            (arith, valid.busses_length, pos_part-le c.num_busses max_busses valid.busses_bound))
          prepared (All-zip BusIsValid D c.busses valid.busses_valid all) refl)
        λ busses w' (l, f, v, k). returns (refl, serves busses l f v, k)
    where
      serves :
          (busses : List IoBus)
          → length busses ≡ length c.busses
          → First
              (λ bus. IsReadyBus drivers contract w.spi bus × IsOpenBus bus)
              (pos_part c.num_busses)
              busses
          → All (λ bus. BusIsValid bus × D bus) busses
          → Serves drivers contract w.spi (record c { busses = busses })
            × First IsOpenBus (pos_part c.num_busses) busses
            × All D busses
      serves busses l f v = (
        record {
          valid = record {
            busses_length = l ∙ valid.busses_length;
            busses_nonneg = valid.busses_nonneg;
            busses_bound = valid.busses_bound;
            busses_valid =
                All-weaken (λ bus. BusIsValid bus × D bus) BusIsValid busses (λ b p. p.0) v;
          };
          bus_ready = λ i bus h at.
              (First-get_elem? (λ bus. IsReadyBus drivers contract w.spi bus × IsOpenBus bus)
                (pos_part c.num_busses) busses i f (omega (arith, valid.busses_nonneg)) at).0;
        },
        First-weaken (λ bus. IsReadyBus drivers contract w.spi bus × IsOpenBus bus) IsOpenBus
            (pos_part c.num_busses) busses (λ bus p. p.1) f,
        All-weaken (λ bus. BusIsValid bus × D bus) D busses (λ b p. p.1) v,
      )

-- On a valid configuration whose counted buses are I2C buses with a device name of less than 32
-- bytes, and whose counted devices are PCF8574 or MCP23017 with an address, and with memory for
-- the data of every MCP23017, `io_init` returns `EXIT_SUCCESS` without undefined behaviour, keeps
-- the SPI state, and leaves a configuration that serves. Whether the bus can be opened does not
-- matter for this.
pub io_init-Serves :
    (env : Env) (c : IoConfig) (w : World)
    → Grants env
    → IsValid c
    → First IsPreparedBus (pos_part c.num_busses) c.busses
    → Returns
        (λ (rc, c') w'. (rc ≡ pos 0) × Serves drivers contract w.spi c' × (w'.spi ≡ w.spi))
        (io_init drivers c env w)
io_init-Serves env c w grants valid prepared =
    weaken
      (io_init-Opens (λ _. Unit {0}) (λ bus opened. tt) env c w grants valid prepared
        (All-any c.busses))
      λ (rc, c') w' (e, (serves, _, _), k). (e, serves, k)
