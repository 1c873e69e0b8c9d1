-- ===== src/IoCore/Requests.antt =====
-- src/io.c: which requests `perform_io` refuses, and which reach a device.
use switcher_c.Base.{
  ℕ, suc, ◌≡◌, ◌≢◌, ◌∙◌, refl, ◌⊎◌, inl, inr, arith, Bool, true, false, not, ◌||◌, some, Bool-cases,
}
use switcher_c.Base.Int.{ℤ, pos, negsuc, minus_one, ◌≤ℤ◌, ltb_ℤ, eqb_ℤ}
use switcher_c.Base.Lists.{get_elem?, get_elem?-lt, All-get_elem?}
use switcher_c.Base.Text.{Bytes, text}
use switcher_c.Config.{
  IoCmd, cmd_none, cmd_write, cmd_read, IoDev, IoBus, IoConfig, IoData, IsValid, BusIsValid,
}
use switcher_c.Driver.{Drivers}
use switcher_c.IoCore.{
  SuccessCb, Outcome, refuse, perform_io, perform_cmd, perform_write, perform_read, at_device,
  device_missing,
}
use switcher_c.World.{Env, World, ok, fault, Io, ErrorCb}

-- The request's bus index is that of a configured bus.
pub record NamesBus (c : IoConfig) (d : IoData) (i : ℕ) (bus : IoBus) : Type 0 where
  pub bus_index : d.idx_bus ≡ pos i
  pub bus_bound : pos (suc i) ≤ℤ c.num_busses
  pub bus_at : get_elem? c.busses i ≡ some bus

-- The request's device index is that of a configured device of the bus.
pub record NamesDev (d : IoData) (bus : IoBus) (j : ℕ) (dev : IoDev) : Type 0 where
  pub dev_index : d.idx_dev ≡ pos j
  pub dev_bound : pos (suc j) ≤ℤ bus.num_devices
  pub dev_at : get_elem? bus.devices j ≡ some dev

-- A request that is to be refused, with the message for it.
pub data Refused (c : IoConfig) (d : IoData) (cmd : IoCmd) : Bytes → Type 0 where
  no_bus :
      (d.idx_bus ≡ minus_one) ⊎ (c.num_busses ≤ℤ d.idx_bus)
      → Refused c d cmd (text "Bus ID not existing.")
  no_device :
      {i : ℕ} {bus : IoBus}
      → NamesBus c d i bus
      → (d.idx_dev ≡ minus_one) ⊎ (bus.num_devices ≤ℤ d.idx_dev)
      → Refused c d cmd (text "Device ID not existing.")
  illegal :
      {i j : ℕ} {bus : IoBus} {dev : IoDev}
      → NamesBus c d i bus
      → NamesDev d bus j dev
      → cmd ≡ cmd_none
      → Refused c d cmd (text "Illegal command.")

bus_test : IoConfig → IoData → Bool
bus_test c d = eqb_ℤ d.idx_bus minus_one || not (ltb_ℤ d.idx_bus c.num_busses)

bus_test-true :
    (c : IoConfig) (d : IoData)
    → (d.idx_bus ≡ minus_one) ⊎ (c.num_busses ≤ℤ d.idx_bus)
    → bus_test c d ≡ true
unfolding bus_test
bus_test-true c d (inl e) = ground arith
bus_test-true c d (inr e) = ground arith

bus_test-false :
    (c : IoConfig) (d : IoData) {i : ℕ} {bus : IoBus} → NamesBus c d i bus → bus_test c d ≡ false
unfolding bus_test
bus_test-false c d n = ground arith

module _ (drivers : Drivers) (c : IoConfig) (d : IoData) (cs : SuccessCb) (ce : ErrorCb) where
  -- What each command does at the device that the request names.
  unfoldable pub run_cmd : IoCmd → IoBus → IoDev → Io Outcome
  run_cmd cmd_none bus dev = refuse (text "Illegal command.") c d ce
  run_cmd cmd_write bus dev = perform_write drivers c d bus dev cs ce
  run_cmd cmd_read bus dev = perform_read drivers c d bus dev cs ce

  device_missing-false :
      {i j : ℕ} {bus : IoBus} {dev : IoDev} (env : Env) (w : World)
      → NamesBus c d i bus
      → NamesDev d bus j dev
      → device_missing c d env w ≡ ok false w
  unfolding device_missing
  device_missing-false env w nb nd = rw (nb.bus_index, nb.bus_at) (ground arith)

  perform_cmd-run_cmd :
      {i j : ℕ} {bus : IoBus} {dev : IoDev} (cmd : IoCmd) (env : Env) (w : World)
      → NamesBus c d i bus
      → NamesDev d bus j dev
      → perform_cmd drivers c d cmd cs ce env w ≡ run_cmd cmd bus dev env w
  unfolding perform_cmd at_device run_cmd
  perform_cmd-run_cmd cmd_none env w nb nd = refl
  perform_cmd-run_cmd cmd_write env w nb nd = rw (nb.bus_index, nd.dev_index, nb.bus_at, nd.dev_at)
  perform_cmd-run_cmd cmd_read env w nb nd = rw (nb.bus_index, nd.dev_index, nb.bus_at, nd.dev_at)

  -- A request that names a device is carried out on it.
  pub perform_io-run_cmd :
      {i j : ℕ} {bus : IoBus} {dev : IoDev} (cmd : IoCmd) (env : Env) (w : World)
      → NamesBus c d i bus
      → NamesDev d bus j dev
      → perform_io drivers c d cmd cs ce env w ≡ run_cmd cmd bus dev env w
  unfolding perform_io bus_test run_cmd
  perform_io-run_cmd cmd env w nb nd =
      rw (bus_test-false c d nb, device_missing-false env w nb nd)
        (perform_cmd-run_cmd cmd env w nb nd)

  device_missing-true :
      {i : ℕ} {bus : IoBus} (env : Env) (w : World)
      → NamesBus c d i bus
      → (d.idx_dev ≡ minus_one) ⊎ (bus.num_devices ≤ℤ d.idx_dev)
      → device_missing c d env w ≡ ok true w
  unfolding device_missing
  device_missing-true env w nb (inl e) = rw e
  device_missing-true env w nb (inr h) = rw (nb.bus_index, nb.bus_at) (ground arith)

  -- A request is refused if its bus index is -1 or not below the number of buses, if it names a
  -- bus but its device index is -1 or not below the bus's number of devices, or if it names both
  -- but its command is neither read nor write: the error callback gets the message for the case,
  -- the result is `EXIT_FAILURE`, configuration and request stay as they are, and no driver is
  -- called.
  pub perform_io-refuse :
      {cmd : IoCmd} {msg : Bytes} (env : Env) (w : World)
      → Refused c d cmd msg
      → perform_io drivers c d cmd cs ce env w ≡ refuse msg c d ce env w
  unfolding perform_io bus_test run_cmd
  perform_io-refuse env w (no_bus h) = rw (bus_test-true c d h)
  perform_io-refuse env w (no_device nb h) =
      rw (bus_test-false c d nb, device_missing-true env w nb h)
  perform_io-refuse {cmd} env w (illegal {bus = bus} {dev = dev} nb nd e) =
      perform_io-run_cmd cmd env w nb nd ∙ rw (e, run_cmd)

-- A request whose indices are not below -1, as a valid configuration meets it.
pub data Request (c : IoConfig) (d : IoData) (cmd : IoCmd) : Type 0 where
  refused : {msg : Bytes} → Refused c d cmd msg → Request c d cmd
  named :
      {i j : ℕ} {bus : IoBus} {dev : IoDev}
      → NamesBus c d i bus
      → NamesDev d bus j dev
      → Request c d cmd

-- An index is -1 or past the end, or a position below the count.
index-cases :
    (z n : ℤ)
    → minus_one ≤ℤ z
    → ((z ≡ minus_one) ⊎ (n ≤ℤ z)) ⊎ ((i : ℕ) × (z ≡ pos i) × (pos (suc i) ≤ℤ n))
index-cases (negsuc k) n h = inl (inl (ground arith))
index-cases (pos i) n h = elim (Bool-cases (ltb_ℤ (pos i) n)) [
  | inl below ↦ inr (i, refl, ground arith)
  | inr past ↦ inl (inr (ground arith))
]

pub classify :
    (c : IoConfig) (d : IoData) (cmd : IoCmd)
    → IsValid c
    → minus_one ≤ℤ d.idx_bus
    → minus_one ≤ℤ d.idx_dev
    → Request c d cmd
classify c d cmd v hb hd = elim (index-cases d.idx_bus c.num_busses hb) [
  | inl h ↦ refused (no_bus h)
  | inr (i, e, lt) ↦
      let len = v.busses_length in
      let bound = v.busses_bound in
      let (bus, at) = get_elem?-lt c.busses i (ground arith) in
      let nb : NamesBus c d i bus = record { bus_index = e; bus_bound = lt; bus_at = at } in
      device-cases bus nb (All-get_elem? BusIsValid c.busses i v.busses_valid at)
]
  where
    device-cases : {i : ℕ} (bus : IoBus) → NamesBus c d i bus → BusIsValid bus → Request c d cmd
    device-cases bus nb bv = elim (index-cases d.idx_dev bus.num_devices hd) [
      | inl h ↦ refused (no_device nb h)
      | inr (j, e, lt) ↦
          let len = bv.devices_length in
          let bound = bv.devices_bound in
          let (dev, at) = get_elem?-lt bus.devices j (ground arith) in
          named nb (record { dev_index = e; dev_bound = lt; dev_at = at })
    ]

-- A bus index below -1 passes the test of the index when the number of buses is not negative:
-- with a device index other than -1, `perform_io` reads outside the array, which is undefined
-- behaviour.
pub perform_io-negative_bus :
    (drivers : Drivers) (c : IoConfig) (d : IoData) (cmd : IoCmd) (cs : SuccessCb) (ce : ErrorCb)
    (env : Env) (w : World) (n : ℕ)
    → pos 0 ≤ℤ c.num_busses
    → d.idx_bus ≡ negsuc (suc n)
    → d.idx_dev ≢ minus_one
    → perform_io drivers c d cmd cs ce env w ≡ fault
unfolding perform_io device_missing
perform_io-negative_bus drivers c d cmd cs ce env w n h e ne =
    let t : (eqb_ℤ d.idx_bus minus_one || not (ltb_ℤ d.idx_bus c.num_busses)) ≡ false =
      ground arith in
    let t' : eqb_ℤ d.idx_dev minus_one ≡ false = not_minus_one d.idx_dev ne in rw (t, t') (rw e)
  where
    not_minus_one : (z : ℤ) → z ≢ minus_one → eqb_ℤ z minus_one ≡ false
    not_minus_one (pos n) h = ground arith
    not_minus_one (negsuc n) h = elim (Bool-cases (eqb_ℤ (negsuc n) minus_one)) [
      | inl same ↦ absurd (h (ground arith))
      | inr differ ↦ differ
    ]
