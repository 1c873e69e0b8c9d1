-- ===== src/Mcp23017/Total.antt =====
-- src/mcp23017.c: `read` and `write`, whatever the kernel answers: the result, and the direction that
-- the driver remembers.
use switcher_c.Base.{ℕ, ◌≡◌, ◌∙◌, refl, inl, inr, ◌⊎◌, true, some, Bool-cases, if◌then◌else◌}
use switcher_c.Base.Int.{ℤ, pos, eqb_ℤ}
use switcher_c.Base.Text.{Bytes}
use switcher_c.Config.{
  IoBus, IoDev, Mcp23017IoState, mcp23017_none, mcp23017_read, mcp23017_write, Mcp23017Data,
}
use switcher_c.I2cLinux.Total.{IsWired, write_byte_data-Returns, read_byte_data-Returns}
use switcher_c.IoCore.Contract.{IsQuiet, KeepsSpi}
use switcher_c.Mcp23017.{
  configure_ports, configure_io, ensure_state, is_state, write_latches, write, read_ports, read,
}
use switcher_c.World.{Env, World, Io}
use switcher_c.World.Returns.{Returns, returns, bind, weaken, deref-Returns}

-- What a finished call says of its result and of the device: the data are there, and success means
-- that the remembered direction is the one wanted. Nothing else of the device changes.
pub record Leaves (desired : Mcp23017IoState) (dev : IoDev) (rc : ℤ) (dev' : IoDev) : Type 0 where
  pub dev_data : Mcp23017Data
  pub has_data : dev' ≡ record dev { dev_data = some dev_data }
  pub outcome : (rc ≡ pos 0) ⊎ ((rc ≡ pos 1) × (is_state dev_data.io_state desired ≡ true))

module _ (bus : IoBus) (f : Bytes → Io (Unit {0})) (quiet : IsQuiet f) (env : Env) where
  module _ (dev : IoDev) (wired : IsWired bus.bus_data dev.dev_bus_data) (w : World) where
    configure_ports-Returns :
        (desired : Mcp23017IoState)
        → Returns (KeepsSpi w) (configure_ports bus dev desired (some f) env w)
    unfolding configure_ports
    configure_ports-Returns desired =
        bind (write_byte_data-Returns bus dev wired f quiet env w _ _) λ ra w1 p.
          elim (Bool-cases (eqb_ℤ ra (pos 0))) [
            | inl acked ↦ rw acked (
                bind (write_byte_data-Returns bus dev wired f quiet env w1 _ _)
                  λ rb w2 q. returns (q ∙ p))
            | inr refused ↦ rw refused (returns p)
          ]

    configure_io-Returns :
        (desired : Mcp23017IoState)
        → Returns (KeepsSpi w) (configure_io bus dev desired (some f) env w)
    unfolding configure_io
    configure_io-Returns mcp23017_none = returns refl
    configure_io-Returns mcp23017_read = configure_ports-Returns mcp23017_read
    configure_io-Returns mcp23017_write = configure_ports-Returns mcp23017_write

    ensure_state-Returns :
        (desired : Mcp23017IoState) {dev_data : Mcp23017Data}
        → dev.dev_data ≡ some dev_data
        → Returns (KeepsSpi w) (ensure_state bus dev desired (some f) env w)
    unfolding ensure_state
    ensure_state-Returns desired has = bind (deref-Returns env w has) λ dev_data w' (_, same).
        elim (Bool-cases (is_state dev_data.io_state desired)) [
          | inl already ↦ rw (already, same) (returns refl)
          | inr other ↦ rw (other, same) (configure_io-Returns desired)
        ]

    write_latches-Returns :
        (states : ℕ)
        → Returns
            (λ rc w'. (w'.spi ≡ w.spi) × ((rc ≡ pos 0) ⊎ (rc ≡ pos 1)))
            (write_latches bus dev states (some f) env w)
    unfolding write_latches
    write_latches-Returns states =
        bind (write_byte_data-Returns bus dev wired f quiet env w _ _) λ ra w1 p.
          elim (Bool-cases (eqb_ℤ ra (pos 0))) [
            | inl acked ↦ rw acked (
                bind (write_byte_data-Returns bus dev wired f quiet env w1 _ _)
                  λ rb w2 q. returns (q ∙ p, code rb))
            | inr refused ↦ rw refused (returns (p, inl refl))
          ]
      where
        code :
            (rb : ℤ)
            → ((if eqb_ℤ rb (pos 0) then pos 1 else pos 0) ≡ pos 0)
              ⊎ ((if eqb_ℤ rb (pos 0) then pos 1 else pos 0) ≡ pos 1)
        code rb = elim (Bool-cases (eqb_ℤ rb (pos 0))) [ inl e ↦ inr (rw e) | inr e ↦ inl (rw e) ]

    read_ports-Returns :
        (value : ℕ)
        → Returns
            (λ r w'. (w'.spi ≡ w.spi) × (r.dev ≡ dev) × ((r.rc ≡ pos 0) ⊎ (r.rc ≡ pos 1)))
            (read_ports bus dev value (some f) env w)
    unfolding read_ports
    read_ports-Returns value =
        bind (read_byte_data-Returns bus dev wired f quiet env w _ _) λ (ra, a) w1 p.
          elim (Bool-cases (eqb_ℤ ra (pos 0))) [
            | inl got ↦ rw got (
                bind (read_byte_data-Returns bus dev wired f quiet env w1 _ _) λ (rb, b) w2 q.
                  elim (Bool-cases (eqb_ℤ rb (pos 0))) [
                    | inl also ↦ rw also (returns (q ∙ p, refl, inr refl))
                    | inr lost ↦ rw lost (returns (q ∙ p, refl, inl refl))
                  ])
            | inr lost ↦ rw lost (returns (p, refl, inl refl))
          ]

  module _ (dev : IoDev) (wired : IsWired bus.bus_data dev.dev_bus_data) {dev_data : Mcp23017Data}
      (has : dev.dev_data ≡ some dev_data) (value : ℕ) (w : World) where
    -- A write to an MCP23017 that is wired and has its data, with a callback that returns and
    -- leaves the SPI state alone, returns whatever the kernel answers. It changes only the
    -- remembered direction of the device, its result is 0 or 1, and a result of 1 means that the
    -- direction is remembered as write.
    pub write-Returns :
        Returns
          (λ (rc, dev') w'. (w'.spi ≡ w.spi) × Leaves mcp23017_write dev rc dev')
          (write bus dev value (some f) env w)
    unfolding write
    write-Returns = bind (ensure_state-Returns dev wired w mcp23017_write has) λ state w1 p.
        elim (Bool-cases (is_state state.io_state mcp23017_write)) [
          | inl ready ↦ rw ready (
              bind (write_latches-Returns (record dev { dev_data = some state }) wired w1 _)
                λ rc w2 (q, code). returns (
                  q ∙ p,
                  record {
                    dev_data = state;
                    has_data = refl;
                    outcome = elim code [ inl e ↦ inl e | inr e ↦ inr (e, ready) ];
                  },
                ))
          | inr not_ready ↦ rw not_ready (
              bind (quiet _ env w1) λ _ w2 q.
                returns (q ∙ p, record { dev_data = state; has_data = refl; outcome = inl refl }))
        ]

    -- A read of an MCP23017 that is wired and has its data, with a callback that returns and
    -- leaves the SPI state alone, returns whatever the kernel answers. It changes only the
    -- remembered direction of the device, its result is 0 or 1, and a result of 1 means that the
    -- direction is remembered as read.
    pub read-Returns :
        Returns
          (λ r w'. (w'.spi ≡ w.spi) × Leaves mcp23017_read dev r.rc r.dev)
          (read bus dev value (some f) env w)
    unfolding read
    read-Returns = bind (ensure_state-Returns dev wired w mcp23017_read has) λ state w1 p.
        elim (Bool-cases (is_state state.io_state mcp23017_read)) [
          | inl ready ↦ rw ready (
              weaken (read_ports-Returns (record dev { dev_data = some state }) wired w1 value)
                λ r w2 (q, same, code). (
                  q ∙ p,
                  record {
                    dev_data = state;
                    has_data = same;
                    outcome = elim code [ inl e ↦ inl e | inr e ↦ inr (e, ready) ];
                  },
                ))
          | inr not_ready ↦ rw not_ready (
              bind (quiet _ env w1) λ _ w2 q.
                returns (q ∙ p, record { dev_data = state; has_data = refl; outcome = inl refl }))
        ]
