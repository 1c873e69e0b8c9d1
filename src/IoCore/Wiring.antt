-- ===== src/IoCore/Wiring.antt =====
-- src/io.c: what requests leave alone in a configuration: all but the drivers' data of the devices.
use switcher_c.Base.{ℕ, zero, suc, ◌≡◌, ◌∙◌, ap, refl, sym, none, some, List, [], ◌∷◌, map}
use switcher_c.Base.Lists.{get_elem?, set, some-inj}
use switcher_c.Config.{IoDev, IoBus, IoConfig, IoData}
use switcher_c.IoCore.{store_dev}
use switcher_c.IoCore.Requests.{NamesBus, NamesDev}

abbrev pub wired_dev : IoDev → IoDev
wired_dev dev = record dev { dev_data = none }

abbrev pub wired_bus : IoBus → IoBus
wired_bus bus = record bus { devices = map wired_dev bus.devices }

-- A configuration without the drivers' data.
abbrev pub wiring : IoConfig → IoConfig
wiring c = record c { busses = map wired_bus c.busses }

map-set_same :
    {A B : Type 0} (f : A → B) (xs : List A) (i : ℕ) {x y : A}
    → get_elem? xs i ≡ some x
    → f y ≡ f x
    → map f (set xs i y) ≡ map f xs
map-set_same f [] i at e = refl
map-set_same f (x ∷ xs) zero at e = ap (λ b. b ∷ map f xs) (e ∙ ap f (sym (some-inj at)))
map-set_same f (x ∷ xs) (suc i) at e = ap (λ bs. f x ∷ bs) (map-set_same f xs i at e)

-- A device that differs in its driver's data only is stored.
pub store_dev-wiring :
    {c : IoConfig} {d : IoData} {i j : ℕ} {bus : IoBus} {old : IoDev} (dev : IoDev)
    → NamesBus c d i bus
    → NamesDev d bus j old
    → wired_dev dev ≡ wired_dev old
    → wiring (store_dev c d bus dev) ≡ wiring c
unfolding store_dev
store_dev-wiring {c} {d} {i} {j} {bus} {old} dev nb nd e =
    rw (nb.bus_index, nd.dev_index)
      (ap (λ bs. record c { busses = bs })
        (map-set_same wired_bus c.busses i nb.bus_at (
          ap (λ ds. record bus { devices = ds })
            (map-set_same wired_dev bus.devices j nd.dev_at e))))
