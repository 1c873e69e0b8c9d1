-- ===== src/IoCore/Ready.antt =====
-- src/io.c: configurations whose counted devices are ready, and the storing of a device.
use mathlib.Core.Path.{subst}
use switcher_c.Base.{ℕ, suc, ◌≡◌, ◌∙◌, inl, inr, some, Option}
use switcher_c.Base.Int.{pos, ◌≤ℤ◌}
use switcher_c.Base.Lists.{get_elem?, set, All-set, All-get_elem?, length-set, get_elem?-set_cases}
use switcher_c.Config.{IoDev, IoBus, IoConfig, IoData, IsValid, BusIsValid}
use switcher_c.Driver.{Drivers}
use switcher_c.IoCore.{store_dev}
use switcher_c.IoCore.Contract.{Contract}
use switcher_c.IoCore.Requests.{NamesBus, NamesDev}
use switcher_c.World.{Spi}

module _ (drivers : Drivers) (contract : Contract drivers) where
  open contract use {Ready}

  pub record IsReadyBus (s : Option Spi) (bus : IoBus) : Type 0 where
    pub dev_ready :
        (j : ℕ) (dev : IoDev)
        → pos (suc j) ≤ℤ bus.num_devices
        → get_elem? bus.devices j ≡ some dev
        → Ready bus.bus_data dev s

  -- A valid configuration, and every device that it counts can be used.
  pub record Serves (s : Option Spi) (c : IoConfig) : Type 0 where
    pub valid : IsValid c
    pub bus_ready :
        (i : ℕ) (bus : IoBus)
        → pos (suc i) ≤ℤ c.num_busses
        → get_elem? c.busses i ≡ some bus
        → IsReadyBus s bus

  stored : IoBus → ℕ → IoDev → IoBus
  stored bus j dev = record bus { devices = set bus.devices j dev }

  stored-IsReadyBus :
      {s : Option Spi} {bus : IoBus} (j : ℕ) (dev : IoDev)
      → IsReadyBus s bus
      → Ready bus.bus_data dev s
      → IsReadyBus s (stored bus j dev)
  unfolding stored
  stored-IsReadyBus {s} {bus} j dev old new = record { dev_ready = at }
    where
      at :
          (k : ℕ) (dev' : IoDev)
          → pos (suc k) ≤ℤ bus.num_devices
          → get_elem? (set bus.devices j dev) k ≡ some dev'
          → Ready bus.bus_data dev' s
      at k dev' h e = elim (get_elem?-set_cases bus.devices j k dev e) [
        | inl (_, same) ↦ subst (λ x. Ready bus.bus_data x s) same new
        | inr before ↦ old.dev_ready k dev' h before
      ]

  pub store_dev-Serves :
      {s : Option Spi} {c : IoConfig} {d : IoData} {i j : ℕ} {bus : IoBus} {dev dev' : IoDev}
      → Serves s c
      → NamesBus c d i bus
      → NamesDev d bus j dev'
      → Ready bus.bus_data dev s
      → Serves s (store_dev c d bus dev)
  unfolding store_dev stored
  store_dev-Serves {s} {c} {d} {i} {j} {bus} {dev} serves nb nd ready =
      rw (nb.bus_index, nd.dev_index) (record { valid = valid'; bus_ready = at })
    where
      bus' : IoBus
      bus' = stored bus j dev

      bus_valid : BusIsValid bus'
      bus_valid =
          let v = All-get_elem? BusIsValid c.busses i serves.valid.busses_valid nb.bus_at in
          record {
            devices_length = length-set bus.devices j dev ∙ v.devices_length;
            devices_nonneg = v.devices_nonneg;
            devices_bound = v.devices_bound;
          }

      valid' : IsValid (record c { busses = set c.busses i bus' })
      valid' = record {
        busses_length = length-set c.busses i bus' ∙ serves.valid.busses_length;
        busses_nonneg = serves.valid.busses_nonneg;
        busses_bound = serves.valid.busses_bound;
        busses_valid = All-set BusIsValid c.busses i bus' serves.valid.busses_valid bus_valid;
      }

      bus_is_ready : IsReadyBus s bus'
      bus_is_ready = stored-IsReadyBus j dev (serves.bus_ready i bus nb.bus_bound nb.bus_at) ready

      at :
          (k : ℕ) (bus'' : IoBus)
          → pos (suc k) ≤ℤ c.num_busses
          → get_elem? (set c.busses i bus') k ≡ some bus''
          → IsReadyBus s bus''
      at k bus'' h e = elim (get_elem?-set_cases c.busses i k bus' e) [
        | inl (_, same) ↦ subst (IsReadyBus s) same bus_is_ready
        | inr before ↦ serves.bus_ready k bus'' h before
      ]
