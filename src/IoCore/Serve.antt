-- ===== src/IoCore/Serve.antt =====
-- src/io.c: `perform_io` on a configuration whose counted devices are ready.
use switcher_c.Base.{
  ℕ, ◌^◌, ap, not, ◌&&◌, ◌<◌, ◌≡◌, ◌≢◌, ◌∙◌, refl, ◌⊎◌, inl, inr, arith, true, false, some, Option,
  Bool-cases,
}
use switcher_c.Base.Int.{pos, pos_part, minus_one, ◌≤ℤ◌, ltb_ℤ, eqb_ℤ}
use switcher_c.Base.Text.{Bytes}
use switcher_c.Config.{IoCmd, cmd_none, cmd_write, cmd_read, IoDev, IoBus, IoConfig, IoData}
use switcher_c.Driver.{Drivers}
use switcher_c.IoCore.{
  Outcome, outcome, get_sub_dev, refuse, perform_io, perform_write, perform_read, finish_write,
  finish_read, store_dev, shift_one,
}
use switcher_c.IoCore.Contract.{IsQuiet, IsQuietSuccess, Contract}
use switcher_c.IoCore.Ready.{Serves, store_dev-Serves}
use switcher_c.IoCore.Requests.{
  NamesBus, NamesDev, refused, named, run_cmd, perform_io-run_cmd, perform_io-refuse, classify,
  Request,
}
use switcher_c.IoCore.Wiring.{wired_dev, wiring, store_dev-wiring}
use switcher_c.World.{Env, World, Spi, Io, ok, and_then}
use switcher_c.World.Returns.{Returns, returns, bind}

-- No sub-device, or one of the 32 digits of a value.
pub data SubInRange (d : IoData) : Type 0 where
  whole : d.idx_sub_dev ≡ minus_one → SubInRange d
  digit : (i : ℕ) → d.idx_sub_dev ≡ pos i → i < 32 → SubInRange d

shift_one-digit : (k : ℕ) → k < 32 → shift_one (pos k) ≡ some (2 ^ k)
unfolding shift_one
shift_one-digit k h = ground arith

module _ (drivers : Drivers) (contract : Contract drivers) (f : Bytes → Io (Unit {0}))
    (g : IoData → Io (Unit {0})) (quiet : IsQuiet f) (quiet_success : IsQuietSuccess g)
    (env : Env) where
  open contract use {Ready, read_returns, write_returns}

  -- The configuration serves on with the same shared state and the same wiring as `c`, and the
  -- result is one of the two codes.
  pub record Served (s : Option Spi) (c : IoConfig) (o : Outcome) (w : World) : Type 0 where
    pub serves : Serves drivers contract s o.config
    pub same_wiring : wiring o.config ≡ wiring c
    pub same_spi : w.spi ≡ s
    pub code : (o.rc ≡ pos 0) ⊎ (o.rc ≡ pos 1)

  refuse-Served :
      {s : Option Spi} (msg : Bytes) {c0 c : IoConfig} (d : IoData) (w : World)
      → Serves drivers contract s c
      → w.spi ≡ s
      → wiring c ≡ wiring c0
      → Returns (Served s c0) (refuse msg c d (some f) env w)
  refuse-Served msg d w serves e kept = bind (quiet msg env w) λ _ w' p.
      returns (record { serves = serves; same_wiring = kept; same_spi = p ∙ e; code = inr refl })

  finish_read-Served :
      {s : Option Spi} {c0 c : IoConfig} (d : IoData) (w : World)
      → Serves drivers contract s c
      → w.spi ≡ s
      → wiring c ≡ wiring c0
      → Returns (Served s c0) (finish_read c d (some g) (some f) env w)
  unfolding finish_read
  finish_read-Served {s} {c0} {c} d w serves e kept =
      elim (Bool-cases (eqb_ℤ d.idx_sub_dev minus_one)) [
        | inl all ↦ rw all (success d)
        | inr part ↦
            elim (Bool-cases (not (ltb_ℤ d.idx_sub_dev (pos 0)) && ltb_ℤ d.idx_sub_dev (pos 32))) [
              | inl inside ↦
                  rw (part, inside)
                    (success (record d { value = get_sub_dev (pos_part d.idx_sub_dev) d.value }))
              | inr outside ↦
                  rw (part, outside)
                    (bind (quiet _ env w) λ _ w' p.
                      bind (quiet_success d env w') λ _ w'' q. returns (served d w'' (q ∙ p ∙ e)))
            ]
      ]
    where
      served : (d' : IoData) (w' : World) → w'.spi ≡ s → Served s c0 (outcome (pos 0) c d') w'
      served d' w' q = record { serves = serves; same_wiring = kept; same_spi = q; code = inl refl }

      success :
          (d' : IoData)
          → Returns (Served s c0) (and_then (g d' env w) (λ _ w'. ok (outcome (pos 0) c d') w'))
      success d' = bind (quiet_success d' env w) λ _ w' q. returns (served d' w' (q ∙ e))

  module _ {s : Option Spi} {c : IoConfig} {d : IoData} {i j : ℕ} {bus : IoBus} {named_dev : IoDev}
      (serves : Serves drivers contract s c) (nb : NamesBus c d i bus)
      (nd : NamesDev d bus j named_dev) where
    stored-Serves :
        (dev : IoDev) → Ready bus.bus_data dev s → Serves drivers contract s (store_dev c d bus dev)
    stored-Serves dev = store_dev-Serves drivers contract serves nb nd

    -- A device of the same wiring stands in the place of the one that the request names.
    abbrev SameDev : IoDev → Type 0
    SameDev dev = wired_dev dev ≡ wired_dev named_dev

    stored_wiring : (dev : IoDev) → SameDev dev → wiring (store_dev c d bus dev) ≡ wiring c
    stored_wiring dev same = store_dev-wiring dev nb nd same

    finish_write-Served :
        (dev : IoDev) (value : ℕ) (w : World)
        → w.spi ≡ s
        → Ready bus.bus_data dev s
        → SameDev dev
        → Returns (Served s c) (finish_write drivers c d bus dev value (some g) (some f) env w)
    unfolding finish_write
    finish_write-Served dev value w e ready same =
        bind (write_returns bus dev value f env w quiet (rw e ready)) λ (rc, dev') w' (p, r, k).
          let kept = stored-Serves dev' (rw e at r) in
          let wired = stored_wiring dev' (k ∙ same) in
          elim (Bool-cases (ltb_ℤ (pos 0) rc)) [
            | inl done ↦ rw done (
                bind (quiet_success d env w') λ _ w'' q. returns (record {
                  serves = kept;
                  same_wiring = wired;
                  same_spi = q ∙ p ∙ e;
                  code = inl refl;
                }))
            | inr failed ↦ rw failed (
                returns (record {
                  serves = kept;
                  same_wiring = wired;
                  same_spi = p ∙ e;
                  code = inl refl;
                }))
          ]

    perform_write-Served :
        (dev : IoDev) (w : World)
        → w.spi ≡ s
        → Ready bus.bus_data dev s
        → SameDev dev
        → SubInRange d
        → Returns (Served s c) (perform_write drivers c d bus dev (some g) (some f) env w)
    unfolding perform_write
    perform_write-Served dev w e ready same (whole h) =
        let t : eqb_ℤ d.idx_sub_dev minus_one ≡ true = ground arith in
        rw t (finish_write-Served dev d.value w e ready same)
    perform_write-Served dev w e ready same (digit k h lt) =
        let t : eqb_ℤ d.idx_sub_dev minus_one ≡ false = ground arith in
        rw t (
          bind (read_returns bus dev d.value f env w quiet (rw e ready)) λ r w' (p, ready', k').
            let now = p ∙ e in
            let wired = k' ∙ same in
            elim (Bool-cases (ltb_ℤ (pos 0) r.rc)) [
              | inl done ↦ rw done (
                  rw (ap shift_one h, shift_one-digit k lt)
                    (finish_write-Served r.dev _ w' now (rw e at ready') wired))
              | inr failed ↦ rw failed (
                  refuse-Served _ d w' (stored-Serves r.dev (rw e at ready')) now
                    (stored_wiring r.dev wired))
            ])

    perform_read-Served :
        (dev : IoDev) (w : World)
        → w.spi ≡ s
        → Ready bus.bus_data dev s
        → SameDev dev
        → Returns (Served s c) (perform_read drivers c d bus dev (some g) (some f) env w)
    unfolding perform_read
    perform_read-Served dev w e ready same =
        bind (read_returns bus dev d.value f env w quiet (rw e ready)) λ r w' (p, ready', k).
          let kept = stored-Serves r.dev (rw e at ready') in
          let wired = stored_wiring r.dev (k ∙ same) in
          elim (Bool-cases (ltb_ℤ (pos 0) r.rc)) [
            | inl done ↦ rw done (finish_read-Served _ w' kept (p ∙ e) wired)
            | inr failed ↦ rw failed (
                returns (record {
                  serves = kept;
                  same_wiring = wired;
                  same_spi = p ∙ e;
                  code = inl refl;
                }))
          ]

  -- On a configuration that serves (valid, and every counted device ready in the sense of the
  -- drivers' contract), with callbacks that return and leave the SPI state alone, a request whose
  -- bus and device indices are not below -1 and, if it writes, whose sub-device is -1 or one of
  -- the 32 digits, is answered: `perform_io` returns without undefined behaviour, whatever the
  -- hardware answers, with `EXIT_SUCCESS` or `EXIT_FAILURE`, and the configuration that it leaves
  -- serves the next request and differs from the one before in the drivers' own data of the
  -- devices at most.
  pub perform_io-Served :
      {s : Option Spi} {c : IoConfig} (d : IoData) (cmd : IoCmd) (w : World)
      → Serves drivers contract s c
      → w.spi ≡ s
      → minus_one ≤ℤ d.idx_bus
      → minus_one ≤ℤ d.idx_dev
      → (cmd ≢ cmd_write) ⊎ SubInRange d
      → Returns (Served s c) (perform_io drivers c d cmd (some g) (some f) env w)
  unfolding run_cmd
  perform_io-Served {s} {c} d cmd w serves e hb hd sub =
      answer (classify c d cmd serves.valid hb hd)
    where
      run :
          {i j : ℕ} {bus : IoBus} {dev : IoDev} (cmd : IoCmd)
          → NamesBus c d i bus
          → NamesDev d bus j dev
          → (cmd ≢ cmd_write) ⊎ SubInRange d
          → Returns (Served s c) (run_cmd drivers c d (some g) (some f) cmd bus dev env w)
      run {i} {j} {bus} {dev} cmd nb nd sub = at_cmd cmd sub
        where
          ready : Ready bus.bus_data dev s
          ready =
              (serves.bus_ready i bus nb.bus_bound nb.bus_at).dev_ready j dev nd.dev_bound nd.dev_at

          at_cmd :
              (cmd : IoCmd)
              → (cmd ≢ cmd_write) ⊎ SubInRange d
              → Returns (Served s c) (run_cmd drivers c d (some g) (some f) cmd bus dev env w)
          at_cmd cmd_none sub = refuse-Served _ d w serves e refl
          at_cmd cmd_write (inl no_write) = absurd (no_write refl)
          at_cmd cmd_write (inr range) = perform_write-Served serves nb nd dev w e ready refl range
          at_cmd cmd_read sub = perform_read-Served serves nb nd dev w e ready refl

      answer :
          Request c d cmd
          → Returns (Served s c) (perform_io drivers c d cmd (some g) (some f) env w)
      answer (refused r) =
          rw (perform_io-refuse drivers c d (some g) (some f) env w r)
            (refuse-Served _ d w serves e refl)
      answer (named nb nd) =
          rw (perform_io-run_cmd drivers c d (some g) (some f) cmd env w nb nd) (run cmd nb nd sub)
