-- ===== src/Main/Frees.antt =====
-- src/main.c with src/io.c: the blocks that the shutdown gives back.
use switcher_c.Base.{
  ℕ, zero, suc, ◌*◌, refl, ◌∷◌, inl, inr, Bool-cases, ◌+◌, ◌≡◌, ◌∙◌, ◌≤◌, arith, Bool, true, false,
}
use switcher_c.Base.Int.{pos, pos_part, eqb_ℤ}
use switcher_c.Base.Lists.{length, take}
use switcher_c.Config.{IoConfig}
use switcher_c.Http.{stop_http_server}
use switcher_c.IoCore.Lifecycle.{io_deinit, conf_deinit}
use switcher_c.Daemon.{PidFile}
use switcher_c.Main.{Program, shut_down, release_pid_file, signal_handler}
use switcher_c.Main.Stop.{option_blocks, free_each, free_options-all}
use switcher_c.Tables.Blocks.{held, conf_deinit-weigh}
use switcher_c.World.Weight.{calls, weigh_calls, sum}
use switcher_c.Tables.Frees.{dev_data_blocks, io_deinit-frees}
use switcher_c.Tables.Shutdown.{io_deinit-CanDiscard}
use switcher_c.Tables.Stoppable.{CanStop}
use switcher_c.Tables.{drivers}
use switcher_c.World.{Object, Event, Log, Env, World, and_then, ok}
use switcher_c.World.Returns.{Returns, returns, bind, weaken, Returns-both}

-- The weight of every block that a configuration holds: the data of the counted MCP23017, and the
-- blocks of the bus drivers.
abbrev pub all_blocks : (Object → ℕ) → IoConfig → ℕ
all_blocks g c =
    sum (dev_data_blocks g) (take (pos_part c.num_busses) c.busses)
    + sum (held (calls g g)) c.busses

module _ (c : IoConfig) (env : Env) (k g : Object → ℕ) (stop : CanStop c) where
  devices-frees :
      (w : World)
      → Returns
          (λ _ w'. weigh_calls k g w'.log ≡ all_blocks g c + weigh_calls k g w.log)
          (and_then
            (io_deinit drivers c env w)
            (λ p w'. and_then (conf_deinit drivers p.1 env w') (λ q w''. ok q.1 w'')))
  devices-frees w =
      let bound : pos_part c.num_busses ≤ length c.busses = omega (arith, stop.bound, stop.size) in
      bind
        (Returns-both (io_deinit-CanDiscard env c w bound stop.opened stop.can)
          (io_deinit-frees env k g c w bound stop.opened))
        λ (rc, c1) w1 ((l, can, _), (kept, e)).
          bind (conf_deinit-weigh env (calls k g) c1 w1 (l ∙ stop.size) can)
            λ (rc', c2) w2 (_, e'). returns (omega (arith, kept, e, e'))

  pub shut_down-frees :
      (running : Bool) (w : World)
      → Returns
          (λ _ w'. weigh_calls k g w'.log ≡ all_blocks g c + weigh_calls k g w.log)
          (shut_down running c env w)
  unfolding shut_down stop_http_server
  shut_down-frees true w = weaken (devices-frees _) λ _ w' e. omega (arith, e)
  shut_down-frees false w = weaken (devices-frees _) λ _ w' e. omega (arith, e)

free_each-frees :
    (k g : Object → ℕ) (n : ℕ) (l : Log)
    → weigh_calls k g (free_each n l) ≡ n * g Object.option_object + weigh_calls k g l
free_each-frees k g zero l = omega arith
free_each-frees k g (suc n) l =
    ground (arith, free_each-frees k g n (Event.free Object.option_object ∷ l))

release_pid_file-frees :
    (k g : Object → ℕ) (pid : PidFile) (env : Env) (w : World)
    → Returns (λ _ w'. weigh_calls k g w'.log ≡ weigh_calls k g w.log) (release_pid_file pid env w)
unfolding release_pid_file
release_pid_file-frees k g pid env w = elim (Bool-cases pid.stream_pid) [
  | inl opened ↦
      rw opened (elim (Bool-cases (eqb_ℤ (env.ret w.log (Event.flock_unlock pid.fh_pid)) (pos 0))) [
        | inl good ↦ rw good (returns (omega arith))
        | inr bad ↦ rw bad (returns (omega arith))
      ])
  | inr closed ↦ rw closed (returns refl)
]

-- The signal handler gives back every block once and makes none. With a configuration as for
-- `signal_handler-Stopped`, and whatever the kinds of blocks weigh, made or given back: the calls
-- of `malloc` and `free` that the handler makes weigh together what giving back those blocks
-- weighs that the program holds before, which are the options, the data of the counted MCP23017,
-- and the blocks of the I2C bus driver, of buses and devices.
pub signal_handler-frees :
    (p : Program) (env : Env) (k g : Object → ℕ) (w : World)
    → CanStop p.io_configuration
    → Returns
        (λ _ w'.
          weigh_calls k g w'.log
          ≡ option_blocks p.http_options * g Object.option_object
            + all_blocks g p.io_configuration
            + weigh_calls k g w.log)
        (signal_handler p env w)
unfolding signal_handler
signal_handler-frees p env k g w stop =
    bind (shut_down-frees p.io_configuration env k g stop p.http_server w) λ config w1 e.
      rw (free_options-all p.http_options env w1) (
        bind (release_pid_file-frees k g p.pid env _) λ pid w2 e'.
          returns (omega (arith, e, e', free_each-frees k g (option_blocks p.http_options) w1.log)))
