-- ===== src/Tables/Makes.antt =====
-- src/io.c: the blocks that `io_init` makes, and that the devices hold behind it.
use switcher_c.Base.{
  ℕ, zero, suc, ◌+◌, ◌≤◌, ◌≡◌, refl, ap, arith, some, List, [], ◌∷◌, inl, inr, Bool-cases, lt→ltb,
}
use switcher_c.Base.Int.{pos, pos_part, ltb_ℤ}
use switcher_c.Base.Lists.{All, First, length, take}
use switcher_c.Config.{
  mcp23017_none, IoBus, IoDev, IoConfig, BusIsValid, IsValid, I2cLinuxBusData, max_io_devices,
  max_busses,
}
use switcher_c.I2cLinux.{i2c_linux_open}
use switcher_c.IoCore.{for_first}
use switcher_c.IoCore.Lifecycle.{init_one, open_one, io_init_bus, io_init}
use switcher_c.Mcp23017
use switcher_c.Tables.Blocks.{dev_blocks, bus_blocks, held}
use switcher_c.World.Weight.{calls, weigh_calls, sum}
use switcher_c.Tables.Frees.{data_of, dev_data_blocks}
use switcher_c.Tables.Prepared.{
  IsPreparedDev, pcf8574_prepared, mcp23017_prepared, IsPreparedBus, Grants, when_some-Returns,
  pos_part-le,
}
use switcher_c.Tables.{drivers}
use switcher_c.World.{Object, Event, Env, World, Io}
use switcher_c.World.Returns.{Returns, returns, bind, deref-Returns}

-- A loop over the first elements of an array whose step adds the weight of the element that it
-- leaves, and keeps a measure of it.
module _ {A : Type 0} (P : A → Type 0) (k g : Object → ℕ) (weight measure : A → ℕ) (body : A → Io A)
    (env : Env)
    (step : (x : A) (w : World)
      → P x
      → Returns
          (λ x' w'.
            (measure x' ≡ measure x) × (weigh_calls k g w'.log ≡ weight x' + weigh_calls k g w.log))
          (body x env w)) where
  for_first-makes :
      (n : ℕ) (xs : List A) (w : World)
      → n ≤ length xs
      → First P n xs
      → Returns
          (λ xs' w'.
            (sum measure xs' ≡ sum measure xs)
            × (weigh_calls k g w'.log ≡ sum weight (take n xs') + weigh_calls k g w.log))
          (for_first n body xs env w)
  unfolding for_first
  for_first-makes zero xs w e a = returns (refl, omega arith)
  for_first-makes (suc n) [] w e a = absurd (omega arith)
  for_first-makes (suc n) (x ∷ xs) w e (p, a) = bind (step x w p) λ x' w1 (m, q).
      bind (for_first-makes n xs w1 (omega arith) a)
        λ xs' w2 (ms, r). returns (omega arith, omega arith)

First-zip :
    {A : Type 0} (P Q : A → Type 0) (n : ℕ) (xs : List A)
    → First P n xs
    → All Q xs
    → First (λ x. P x × Q x) n xs
First-zip P Q zero xs f a = tt
First-zip P Q (suc n) [] f a = f
First-zip P Q (suc n) (x ∷ xs) (p, f) (q, a) = ((p, q), First-zip P Q n xs f a)

module _ (env : Env) (grants : Grants env) (k g : Object → ℕ) where
  init_one-makes :
      (bus : IoBus) (dev : IoDev) (w : World)
      → IsPreparedDev dev
      → Returns
          (λ dev' w'.
            (dev_blocks (calls g g) dev'.dev_bus_data ≡ dev_blocks (calls g g) dev.dev_bus_data)
            × (weigh_calls k g w'.log
                ≡ data_of k dev'.drv_handle dev'.dev_data + weigh_calls k g w.log))
          (init_one drivers bus dev env w)
  unfolding init_one Mcp23017.init
  init_one-makes bus dev w (pcf8574_prepared h b hd) =
      when_some-Returns _ _ h (returns (refl, omega (arith, ap (λ d. data_of k d dev.dev_data) h)))
  init_one-makes bus dev w (mcp23017_prepared h b hd) = when_some-Returns _ _ h (
      rw (grants.granted w.log) (
        returns (
          refl,
          omega (arith, ap (λ d. data_of k d (some (record { io_state = mcp23017_none }))) h),
        )))

  open_one-makes :
      (bus : IoBus) (w : World)
      → IsPreparedBus bus
      → Returns
          (λ bus' w'.
            ((block : I2cLinuxBusData) × (bus' ≡ record bus { bus_data = some block }))
            × (weigh_calls k g w'.log ≡ weigh_calls k g w.log))
          (open_one drivers bus env w)
  unfolding open_one i2c_linux_open
  open_one-makes bus w prepared =
      when_some-Returns _ _ prepared.driver
        (bind (opens bus w prepared) λ (rc, bus') w' p. returns p)
    where
      opens :
          (bus : IoBus) (w : World)
          → IsPreparedBus bus
          → Returns
              (λ (rc, bus') w'.
                ((block : I2cLinuxBusData) × (bus' ≡ record bus { bus_data = some block }))
                × (weigh_calls k g w'.log ≡ weigh_calls k g w.log))
              (i2c_linux_open bus env w)
      opens bus w prepared = bind (deref-Returns env w prepared.has_block) λ block w' (e, same).
          rw (e, same)
            (rw (lt→ltb _ _ prepared.name_fits)
              (elim (Bool-cases
                (ltb_ℤ (env.ret w.log (Event.open_device prepared.block.device)) (pos 0))) [
                  | inl bad ↦ rw bad (returns ((_, refl), omega arith))
                  | inr good ↦ rw good (returns ((_, refl), omega arith))
                ]))

  io_init_bus-makes :
      (bus : IoBus) (w : World)
      → IsPreparedBus bus × BusIsValid bus
      → Returns
          (λ bus' w'.
            (held (calls g g) bus' ≡ held (calls g g) bus)
            × (weigh_calls k g w'.log ≡ dev_data_blocks k bus' + weigh_calls k g w.log))
          (io_init_bus drivers bus env w)
  unfolding io_init_bus
  io_init_bus-makes bus w (prepared, valid) =
      bind (open_one-makes bus w prepared) λ opened w1 ((block, e), same). rw e (
        bind
          (for_first-makes IsPreparedDev k g (λ dev. data_of k dev.drv_handle dev.dev_data)
            (λ dev. dev_blocks (calls g g) dev.dev_bus_data)
            (init_one drivers (record bus { bus_data = some block })) env
            (λ dev w' p. init_one-makes (record bus { bus_data = some block }) dev w' p)
            (pos_part bus.num_devices) bus.devices w1
            (omega (
              arith,
              valid.devices_length,
              pos_part-le bus.num_devices max_io_devices valid.devices_bound,
            ))
            prepared.prepared_devices)
          λ devices w2 (m, q). returns (
            omega (arith, m, ap (bus_blocks (calls g g)) prepared.has_block),
            omega (arith, q, same),
          ))

  pub io_init-makes :
      (c : IoConfig) (w : World)
      → IsValid c
      → First IsPreparedBus (pos_part c.num_busses) c.busses
      → Returns
          (λ (_, c') w'.
            (sum (held (calls g g)) c'.busses ≡ sum (held (calls g g)) c.busses)
            × (weigh_calls k g w'.log
                ≡ sum (dev_data_blocks k) (take (pos_part c'.num_busses) c'.busses)
                  + weigh_calls k g w.log))
          (io_init drivers c env w)
  unfolding io_init
  io_init-makes c w valid prepared =
      let bound : pos_part c.num_busses ≤ length c.busses =
        omega
          (arith, valid.busses_length, pos_part-le c.num_busses max_busses valid.busses_bound) in
      bind
        (for_first-makes (λ bus. IsPreparedBus bus × BusIsValid bus) k g (dev_data_blocks k)
          (held (calls g g)) (io_init_bus drivers) env (λ bus w' p. io_init_bus-makes bus w' p)
          (pos_part c.num_busses) c.busses w bound
          (First-zip IsPreparedBus BusIsValid (pos_part c.num_busses) c.busses prepared
            valid.busses_valid))
        λ busses w1 q. returns q
