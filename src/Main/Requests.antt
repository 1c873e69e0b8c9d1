-- ===== src/Main/Requests.antt =====
-- src/main.c with the parts below it: sequences of requests.
use switcher_c.Base.{◌≡◌, ◌∙◌, ◌≤◌, refl, some, true, Option, List, [], ◌∷◌, inl, inr, Bool-cases}
use switcher_c.Base.Lists.{All, length}
use switcher_c.Config.{IoConfig, IoData}
use switcher_c.Http.Message.{uri_limit}
use switcher_c.Http.Serve.{InRange, http_request_handler-Replied}
use switcher_c.Http.{
  Connection, MgEvent, mg_request, mg_auth, mg_other, RequestT, parse_uri, event_handler,
  http_request_handler,
}
use switcher_c.IoCore.Ready.{Serves}
use switcher_c.IoCore.Wiring.{wiring}
use switcher_c.Main.{serve_all}
use switcher_c.Tables.Ready.{contract}
use switcher_c.Tables.{drivers}
use switcher_c.World.{Env, World, Spi}
use switcher_c.World.Returns.{Returns, returns, bind, weaken}

-- A request that the handler answers: not over HTTP, or with a short URI and indices in range.
pub data Acceptable : Connection → MgEvent → Type 0 where
  auth : {conn : Connection} → Acceptable conn mg_auth
  other : {conn : Connection} → Acceptable conn mg_other
  websocket : {conn : Connection} → conn.is_websocket ≡ true → Acceptable conn mg_request
  request :
      {conn : Connection} (type : RequestT) (p : IoData)
      → parse_uri conn.uri ≡ some (type, p)
      → length conn.uri ≤ uri_limit
      → InRange type p
      → Acceptable conn mg_request

event_handler-Serves :
    {s : Option Spi} (conn : Connection) (event : MgEvent) (c : IoConfig) (env : Env) (w : World)
    → Acceptable conn event
    → Serves drivers contract s c
    → w.spi ≡ s
    → Returns
        (λ (rc, c') w'. Serves drivers contract s c' × (w'.spi ≡ s) × (wiring c' ≡ wiring c))
        (event_handler drivers conn event c env w)
unfolding event_handler http_request_handler
event_handler-Serves conn mg_auth c env w auth serves e = returns (serves, e, refl)
event_handler-Serves conn mg_other c env w other serves e = returns (serves, e, refl)
event_handler-Serves conn mg_request c env w (websocket ws) serves e =
    rw ws (returns (serves, e, refl))
event_handler-Serves conn mg_request c env w (request type p parsed short range) serves e =
    elim (Bool-cases conn.is_websocket) [
      | inl ws ↦ rw ws (returns (serves, e, refl))
      | inr http ↦ rw http (
          weaken
            (http_request_handler-Replied drivers contract env conn w serves e parsed short range)
            λ (rc, c') w' replied. (replied.serves, replied.same_spi, replied.same_wiring))
    ]

-- On a configuration that serves, any sequence of acceptable events is handled to its end without
-- undefined behaviour, whatever the hardware answers, and leaves a configuration that serves and
-- differs from the one before in the drivers' own data of the devices at most, and the SPI state
-- as it was. Acceptable are requests for authentication, other events, requests over a websocket,
-- and requests whose URI has up to 800 bytes and parses to indices not below -1 and, for a SET,
-- to no sub-device or one of the 32 digits.
pub serve_all-Serves :
    {s : Option Spi} (requests : List (Connection × MgEvent)) (c : IoConfig) (env : Env) (w : World)
    → All (λ (conn, event). Acceptable conn event) requests
    → Serves drivers contract s c
    → w.spi ≡ s
    → Returns
        (λ c' w'. Serves drivers contract s c' × (w'.spi ≡ s) × (wiring c' ≡ wiring c))
        (serve_all requests c env w)
unfolding serve_all
serve_all-Serves [] c env w accepted serves e = returns (serves, e, refl)
serve_all-Serves ((conn, event) ∷ rest) c env w (accepted, later) serves e =
    bind (event_handler-Serves conn event c env w accepted serves e)
      λ (rc, c') w' (serves', e', wired).
        weaken (serve_all-Serves rest c' env w' later serves' e')
          λ c'' w'' (serves'', e'', wired'). (serves'', e'', wired' ∙ wired)
