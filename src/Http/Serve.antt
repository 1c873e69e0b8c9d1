-- ===== src/Http/Serve.antt =====
-- src/http.c: `http_request_handler` on a configuration that serves.
use switcher_c.Base.{◌≤◌, ◌≡◌, ◌≢◌, ◌∙◌, refl, ap, ◌⊎◌, inl, inr, Option, some, ◌∷◌}
use switcher_c.Base.Int.{ℤ, minus_one, ◌≤ℤ◌}
use switcher_c.Base.Lists.{length}
use switcher_c.Config.{IoCmd, cmd_write, cmd_read, IoData, IoConfig}
use switcher_c.Driver.{Drivers}
use switcher_c.Http.{
  RequestT, request_err, request_get, request_set, Connection, parse_uri, success_callback,
  error_callback, forward, run_request, http_request_handler, http_reply, mg_true,
}
use switcher_c.Http.Message.{uri_limit, print_request-Returns}
use switcher_c.IoCore.Contract.{IsQuiet, IsQuietSuccess, Contract}
use switcher_c.IoCore.Ready.{Serves}
use switcher_c.IoCore.Serve.{SubInRange, perform_io-Served}
use switcher_c.IoCore.Wiring.{wiring}
use switcher_c.World.{Event, Log, Env, World, Spi}
use switcher_c.World.Returns.{Returns, returns, bind, deref-Returns}

pub error_callback-IsQuiet : IsQuiet error_callback
unfolding error_callback
error_callback-IsQuiet msg env w = returns refl

pub success_callback-IsQuiet : IsQuietSuccess success_callback
unfolding success_callback
success_callback-IsQuiet d env w = returns refl

-- No index is below -1, and the sub-device of a SET request is one of the 32 digits, or none.
pub record InRange (type : RequestT) (p : IoData) : Type 0 where
  pub bus_range : minus_one ≤ℤ p.idx_bus
  pub dev_range : minus_one ≤ℤ p.idx_dev
  pub sub_range : (type ≢ request_set) ⊎ SubInRange p

module _ (drivers : Drivers) (contract : Contract drivers) (env : Env) where
  -- The reply is the last call, it carries the content of the buffer, and the configuration serves
  -- the next request, wired as `c0`.
  pub record Replied (s : Option Spi) (c0 : IoConfig) (rc : ℤ) (c : IoConfig) (w : World)
      : Type 0 where
    pub handled : rc ≡ mg_true
    pub serves : Serves drivers contract s c
    pub same_wiring : wiring c ≡ wiring c0
    pub same_spi : w.spi ≡ s
    pub before : Log
    pub reply : w.log ≡ Event.mg_printf (http_reply w.buf) ∷ before

  forward-Serves :
      {s : Option Spi} {c : IoConfig} (cmd : IoCmd) (p : IoData) (w : World)
      → Serves drivers contract s c
      → w.spi ≡ s
      → minus_one ≤ℤ p.idx_bus
      → minus_one ≤ℤ p.idx_dev
      → (cmd ≢ cmd_write) ⊎ SubInRange p
      → Returns
          (λ c' w'. Serves drivers contract s c' × (w'.spi ≡ s) × (wiring c' ≡ wiring c))
          (forward drivers cmd p c env w)
  unfolding forward
  forward-Serves cmd p w serves e hb hd sub =
      bind
        (perform_io-Served drivers contract error_callback success_callback error_callback-IsQuiet
          success_callback-IsQuiet env p cmd w serves e hb hd sub)
        λ o w' served. returns (served.serves, served.same_spi, served.same_wiring)

  run_request-Serves :
      {s : Option Spi} {c : IoConfig} (type : RequestT) (p : IoData) (w : World)
      → Serves drivers contract s c
      → w.spi ≡ s
      → InRange type p
      → Returns
          (λ c' w'. Serves drivers contract s c' × (w'.spi ≡ s) × (wiring c' ≡ wiring c))
          (run_request drivers type p c env w)
  unfolding run_request
  run_request-Serves request_err p w serves e r =
      bind (error_callback-IsQuiet _ env w) λ _ w' q. returns (serves, q ∙ e, refl)
  run_request-Serves request_get p w serves e r =
      forward-Serves cmd_read p w serves e r.bus_range r.dev_range (inl (cc))
  run_request-Serves request_set p w serves e r =
      forward-Serves cmd_write p w serves e r.bus_range r.dev_range (writes r.sub_range)
    where
      writes : (request_set ≢ request_set) ⊎ SubInRange p → (cmd_write ≢ cmd_write) ⊎ SubInRange p
      writes (inl no_set) = absurd (no_set refl)
      writes (inr sub) = inr sub

  -- A request whose URI has up to 800 bytes and parses to indices not below -1 and, for a SET, to
  -- no sub-device or one of the 32 digits, is answered on a configuration that serves: the
  -- handler returns `MG_TRUE` without undefined behaviour, its last call is the reply with the
  -- content of the buffer, and the configuration that it leaves serves the next request and
  -- differs from the one before in the drivers' own data of the devices at most.
  pub http_request_handler-Replied :
      {s : Option Spi} {c : IoConfig} (conn : Connection) {type : RequestT} {p : IoData} (w : World)
      → Serves drivers contract s c
      → w.spi ≡ s
      → parse_uri conn.uri ≡ some (type, p)
      → length conn.uri ≤ uri_limit
      → InRange type p
      → Returns (λ (rc, c') w'. Replied s c rc c' w') (http_request_handler drivers conn c env w)
  unfolding http_request_handler
  http_request_handler-Replied conn {type} {p} w serves e parsed short range =
      bind (deref-Returns env _ parsed) λ (type', p') w1 (same, e1).
        rw (ap (λ (t : RequestT × IoData). t.0) same, ap (λ (t : RequestT × IoData). t.1) same)
          (bind (print_request-Returns conn.uri p type env w1 short) λ _ w2 (m, e2).
            bind
              (run_request-Serves type p w2 serves
                (ap (λ (x : World). x.spi) e2 ∙ ap (λ (x : World). x.spi) e1 ∙ e) range)
              λ c' w3 (serves', e3, wired). returns (record {
                handled = refl;
                serves = serves';
                same_wiring = wired;
                same_spi = e3;
                before = w3.log;
                reply = refl;
              }))
