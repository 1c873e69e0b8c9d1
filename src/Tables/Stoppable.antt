-- ===== src/Tables/Stoppable.antt =====
-- src/main.c and src/io.c: configurations that can be shut down, and what that depends on.
use mathlib.Core.Path.{subst}
use switcher_c.Base.{
  ℕ, zero, suc, ◌≡◌, ◌≤◌, ◌∙◌, refl, sym, none, some, List, [], ◌∷◌, map, arith, inl, inr,
  Bool-cases, ltb, ltb→lt,
}
use switcher_c.Base.Int.{pos_part}
use switcher_c.Base.Lists.{
  All, All-weaken, All-get_elem?, First, First-get_elem?, length, length-map, get_elem?,
}
use switcher_c.Config.{IoBus, IoConfig, IsValid, BusIsValid, max_busses}
use switcher_c.IoCore.Init.{IsClearBus, IsClearDev}
use switcher_c.IoCore.Wiring.{wired_dev, wired_bus, wiring}
use switcher_c.Tables.Discard.{CanDiscard, by_driver, empty, HasNoBlock}
use switcher_c.Tables.OpenBus.{IsI2cDev, IsOpenBus}
use switcher_c.Tables.Prepared.{IsPreparedBus, pos_part-le}

-- What the signal handler needs of a configuration.
pub record CanStop (c : IoConfig) : Type 0 where
  pub size : length c.busses ≡ max_busses
  pub bound : pos_part c.num_busses ≤ max_busses
  pub opened : First IsOpenBus (pos_part c.num_busses) c.busses
  pub can : All CanDiscard c.busses

-- A valid configuration whose counted buses are open can be shut down.
pub IsValid-CanStop :
    (c : IoConfig)
    → IsValid c
    → First IsOpenBus (pos_part c.num_busses) c.busses
    → All CanDiscard c.busses
    → CanStop c
IsValid-CanStop c valid opened can = record {
  size = valid.busses_length;
  bound = pos_part-le c.num_busses max_busses valid.busses_bound;
  opened = opened;
  can = can;
}

-- Predicates that a map of the elements neither makes nor breaks.
module _ {A : Type 0} (P : A → Type 0) (f : A → A) where
  First-map :
      (n : ℕ) (xs : List A) → ((x : A) → P x → P (f x)) → First P n xs → First P n (map f xs)
  First-map zero xs h p = tt
  First-map (suc n) [] h p = tt
  First-map (suc n) (x ∷ xs) h p = (h x p.0, First-map n xs h p.1)

  First-of_map :
      (n : ℕ) (xs : List A) → ((x : A) → P (f x) → P x) → First P n (map f xs) → First P n xs
  First-of_map zero xs h p = tt
  First-of_map (suc n) [] h p = tt
  First-of_map (suc n) (x ∷ xs) h p = (h x p.0, First-of_map n xs h p.1)

  All-map : (xs : List A) → ((x : A) → P x → P (f x)) → All P xs → All P (map f xs)
  All-map [] h a = tt
  All-map (x ∷ xs) h a = (h x a.0, All-map xs h a.1)

  All-of_map : (xs : List A) → ((x : A) → P (f x) → P x) → All P (map f xs) → All P xs
  All-of_map [] h a = tt
  All-of_map (x ∷ xs) h a = (h x a.0, All-of_map xs h a.1)

IsOpenBus-wired : (bus : IoBus) → IsOpenBus bus → IsOpenBus (wired_bus bus)
IsOpenBus-wired bus o = record {
  driver = o.driver;
  block = o.block;
  has_block = o.has_block;
  i2c_devices =
      First-map IsI2cDev wired_dev (pos_part bus.num_devices) bus.devices (λ dev h. h)
        o.i2c_devices;
  bound = omega (arith, o.bound, length-map bus.devices wired_dev);
  size = length-map bus.devices wired_dev ∙ o.size;
}

IsOpenBus-of_wired : (bus : IoBus) → IsOpenBus (wired_bus bus) → IsOpenBus bus
IsOpenBus-of_wired bus o = record {
  driver = o.driver;
  block = o.block;
  has_block = o.has_block;
  i2c_devices =
      First-of_map IsI2cDev wired_dev (pos_part bus.num_devices) bus.devices (λ dev h. h)
        o.i2c_devices;
  bound = omega (arith, o.bound, length-map bus.devices wired_dev);
  size = sym (length-map bus.devices wired_dev) ∙ o.size;
}

CanDiscard-wired : (bus : IoBus) → CanDiscard bus → CanDiscard (wired_bus bus)
CanDiscard-wired bus (by_driver h size) = by_driver h (length-map bus.devices wired_dev ∙ size)
CanDiscard-wired bus (empty h clear) = empty h (record {
  size = length-map bus.devices wired_dev ∙ clear.size;
  no_bus_block = clear.no_bus_block;
  no_dev_block = All-map HasNoBlock wired_dev bus.devices (λ dev e. e) clear.no_dev_block;
})

CanDiscard-of_wired : (bus : IoBus) → CanDiscard (wired_bus bus) → CanDiscard bus
CanDiscard-of_wired bus (by_driver h size) =
    by_driver h (sym (length-map bus.devices wired_dev) ∙ size)
CanDiscard-of_wired bus (empty h clear) = empty h (record {
  size = sym (length-map bus.devices wired_dev) ∙ clear.size;
  no_bus_block = clear.no_bus_block;
  no_dev_block = All-of_map HasNoBlock wired_dev bus.devices (λ dev e. e) clear.no_dev_block;
})

-- Whether a configuration can be shut down depends on its wiring only.
pub CanStop-wiring : (c c' : IoConfig) → wiring c' ≡ wiring c → CanStop c → CanStop c'
CanStop-wiring c c' e stop = unwired (subst CanStop (sym e) wired)
  where
    wired : CanStop (wiring c)
    wired = record {
      size = length-map c.busses wired_bus ∙ stop.size;
      bound = stop.bound;
      opened =
          First-map IsOpenBus wired_bus (pos_part c.num_busses) c.busses IsOpenBus-wired
            stop.opened;
      can = All-map CanDiscard wired_bus c.busses CanDiscard-wired stop.can;
    }

    unwired : CanStop (wiring c') → CanStop c'
    unwired s = record {
      size = sym (length-map c'.busses wired_bus) ∙ s.size;
      bound = s.bound;
      opened =
          First-of_map IsOpenBus wired_bus (pos_part c'.num_busses) c'.busses IsOpenBus-of_wired
            s.opened;
      can = All-of_map CanDiscard wired_bus c'.busses CanDiscard-of_wired s.can;
    }

All-of_get :
    {A : Type 0} (P : A → Type 0) (xs : List A)
    → ((k : ℕ) (x : A) → get_elem? xs k ≡ some x → P x)
    → All P xs
All-of_get P [] h = tt
All-of_get P (x ∷ xs) h = (h 0 x refl, All-of_get P xs (λ k y e. h (suc k) y e))

-- A configuration as a file describes it, on an array without drivers: the first `n` buses are
-- prepared, and the others are as they were.
pub described-CanDiscard :
    (n : ℕ) (c c' : IoConfig)
    → All (λ bus. IsClearBus bus × (bus.drv_handle ≡ none)) c.busses
    → IsValid c'
    → First IsPreparedBus n c'.busses
    → ((k : ℕ) (bus : IoBus)
        → n ≤ k
        → get_elem? c'.busses k ≡ some bus
        → get_elem? c.busses k ≡ some bus)
    → All CanDiscard c'.busses
described-CanDiscard n c c' clear valid prepared others = All-of_get CanDiscard c'.busses at
  where
    at : (k : ℕ) (bus : IoBus) → get_elem? c'.busses k ≡ some bus → CanDiscard bus
    at k bus e = elim (Bool-cases (ltb k n)) [
      | inl below ↦
          by_driver
            (First-get_elem? IsPreparedBus n c'.busses k prepared (ltb→lt k n below) e).driver
            (All-get_elem? BusIsValid c'.busses k valid.busses_valid e).devices_length
      | inr past ↦
          let (free, no_driver) =
            All-get_elem? (λ bus. IsClearBus bus × (bus.drv_handle ≡ none)) c.busses k clear
              (others k bus (ground arith) e) in
          empty no_driver (record {
            size = free.size;
            no_bus_block = free.no_data;
            no_dev_block =
                All-weaken IsClearDev HasNoBlock bus.devices (λ dev d. d.no_bus_block)
                  free.clear_devices;
          })
    ]
