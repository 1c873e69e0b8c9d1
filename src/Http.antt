-- ===== src/Http.antt =====
-- src/http.c: the HTTP front end. The web server is mongoose, which is not part of the repository:
-- it hands over a connection's URI and kind, and takes the reply.
pub mod Uri
pub mod Reading
pub mod Reference
pub mod RoundTrip
pub mod Serve
pub mod Quiet
pub mod Message
use switcher_c.Base.{
  ℕ, zero, suc, ◌+◌, ◌-◌, ◌<◌, ◌%◌, Bool, true, false, Option, none, some, List, [], ◌∷◌, ◌++◌, not,
  ltb, ◌==◌, if◌then◌else◌,
}
use switcher_c.Base.Int.{ℤ, pos, eqb_ℤ, to_int32, u32_mod}
use switcher_c.Base.Lists.{length, take}
use switcher_c.Base.Text.{Bytes, text}
use switcher_c.Config.{
  IoCmd, cmd_none, cmd_write, cmd_read, IoConfig, IoData, idx_invalid, init_io_data,
}
use switcher_c.Driver.{Drivers}
use switcher_c.IoCore.{Outcome, perform_io}
use switcher_c.Libc.{
  strtol, strtoul, strtok, strtok_in, at_end, format_d, format_x, format_02x, snprintf, Parsed,
}
use switcher_c.World.{
  Event, Io, pure, undefined_behaviour, ◌>>=◌, ◌>>◌, deref, emit, set_buf, World, Env, ok,
}

abbrev pub buf_len : ℕ
buf_len = 1024

pub data RequestT : Type 0 where
  request_err request_get request_set : RequestT

pub data UriStage : Type 0 where
  stage_bus stage_dev stage_value : UriStage

-- What a stage leaves; `good` is `RC_IO_OK`.
pub record Staged : Type 0 where
  pub good : Bool
  pub parts : IoData

abbrev pub staged : Bool → IoData → Staged
staged b p = record { good = b; parts = p }

unfoldable pub parse_bus : Bytes → IoData → Staged
parse_bus token p =
    let r = strtol token 10 in staged (at_end r.endptr) (record p { idx_bus = to_int32 r.number })

-- The part behind the dot, if there is one.
unfoldable pub parse_sub_dev : Option (Bytes × Bytes) → IoData → Staged
parse_sub_dev none p = staged true p
parse_sub_dev (some (token, rest)) p =
    let r = strtol token 10 in
    staged (at_end r.endptr) (record p { idx_sub_dev = to_int32 r.number })

-- `none` where the token is all dots: `strtol` is handed the NULL that `strtok_r` returns.
unfoldable pub parse_dev : Bytes → IoData → Option Staged
parse_dev token p = elim (strtok b'.' token) [
  | none ↦ none
  | some (dev_token, rest) ↦
      let r = strtol dev_token 10 in
      let p' = record p { idx_dev = to_int32 r.number } in
      some (if at_end r.endptr then parse_sub_dev (strtok b'.' rest) p' else staged false p')
]

unfoldable pub parse_value : Bytes → IoData → Staged
parse_value token p =
    let r = strtoul token 16 in staged (at_end r.endptr) (record p { value = r.number % u32_mod })

unfoldable pub parse_stage : UriStage → Bytes → IoData → Option Staged
parse_stage stage_bus token p = some (parse_bus token p)
parse_stage stage_dev token p = parse_dev token p
parse_stage stage_value token p = some (parse_value token p)

unfoldable pub stage_result : UriStage → RequestT → RequestT
stage_result stage_bus result = result
stage_result stage_dev result = request_get
stage_result stage_value result = request_set

-- The loop over the tokens, for the stages that are left; `none` is undefined behaviour. The next
-- token is searched for behind the last stage too.
unfoldable pub parse_stages :
    Bool → List UriStage → RequestT → IoData → Bytes → Option (RequestT × IoData)
parse_stages closed [] result p rest = elim (strtok_in closed b'/' rest) [
  | none ↦ none
  | some _ ↦ some (result, p)
]
parse_stages closed (stage ∷ stages) result p rest = elim (strtok_in closed b'/' rest) [
  | none ↦ none
  | some found ↦ elim found [
    | none ↦ some (result, p)
    | some (token, rest') ↦ elim (parse_stage stage token p) [
      | none ↦ none
      | some s ↦
          let later = parse_stages closed stages (stage_result stage result) s.parts rest' in
          if s.good then later else some (request_err, s.parts)
    ]
  ]
]

-- The copy holds the first `BUF_LEN` bytes, and a NUL behind them only if the URI is shorter.
unfoldable pub parse_uri : Bytes → Option (RequestT × IoData)
parse_uri uri =
    parse_stages (ltb (length uri) buf_len) (stage_bus ∷ stage_dev ∷ stage_value ∷ []) request_err
      init_io_data (take buf_len uri)

unfoldable pub io_data_to_json : IoData → Bytes
io_data_to_json d =
    text "callback({ \"bus_idx\": \""
    ++ (format_d d.idx_bus
        ++ (text "\", \"dev_idx\": "
            ++ (format_d d.idx_dev
                ++ (text ", \"dev_sub_idx\": "
                    ++ (format_d d.idx_sub_dev
                        ++ (text ", \"value\": \"" ++ (format_x d.value ++ text "\" })")))))))

unfoldable pub error_to_json : Bytes → Bytes
error_to_json error_msg = text "{ \"msg\": \"" ++ (error_msg ++ text "\" }")

-- The two callbacks, on the buffer of the handler.
unfoldable pub success_callback : IoData → Io (Unit {0})
success_callback d = set_buf (snprintf buf_len (io_data_to_json d))

unfoldable pub error_callback : Bytes → Io (Unit {0})
error_callback msg = set_buf (snprintf buf_len (error_to_json msg))

-- `cnt += snprintf(message + cnt, BUF_LEN, …)`: the size given is not what is left of the buffer,
-- so a text that does not fit is written past its end.
unfoldable pub append_message : Bytes → Bytes → Io Bytes
append_message message s =
    if ltb (length message + length s) buf_len then pure (message ++ s) else undefined_behaviour

unfoldable pub request_name : RequestT → Bytes
request_name request_get = text "Request: GET, "
request_name request_set = text "Request: SET, "
request_name request_err = text "Request: ERR, "

unfoldable pub is_error : RequestT → Bool
is_error request_err = true
is_error _ = false

unfoldable pub is_set : RequestT → Bool
is_set request_set = true
is_set _ = false

-- The indices and the value, for a request that was understood.
unfoldable pub print_parts : Bytes → IoData → RequestT → Io Bytes
print_parts message p type = do
  m ←
      append_message message
        (text ", Bus: " ++ (format_d p.idx_bus ++ (text ", Device: " ++ format_d p.idx_dev)))
  m' ←
      (if not (eqb_ℤ p.idx_sub_dev idx_invalid)
        then append_message m (text ", Sub-Device: " ++ format_d p.idx_sub_dev)
        else pure m)
  if is_set type then append_message m' (text ", Value: 0x" ++ format_02x p.value) else pure m'

unfoldable pub print_request : Bytes → IoData → RequestT → Io (Unit {0})
print_request uri p type = do
  m ← append_message [] (request_name type)
  m' ← append_message m (text "URI: " ++ uri)
  message ← (if is_error type then pure m' else print_parts m' p type)
  emit (Event.put_syslog message)

abbrev get_buf : Io Bytes
get_buf env w = ok w.buf w

-- The reply: status and headers, and the content that the callbacks left.
unfoldable pub http_reply : Bytes → Bytes
http_reply content =
    text "HTTP/1.1 200 OK\r\nContent-Type: text/javascript\r\nContent-Length: "
    ++ (format_d (pos (length content)) ++ (text "\r\n\r\n" ++ content))

abbrev pub mg_true : ℤ
mg_true = pos 1

abbrev pub mg_false : ℤ
mg_false = pos 0

pub data MgEvent : Type 0 where
  mg_request mg_auth mg_other : MgEvent

pub record Connection : Type 0 where
  pub uri : Bytes
  pub is_websocket : Bool

module _ (drivers : Drivers) where
  -- `perform_io` with the two callbacks.
  unfoldable pub forward : IoCmd → IoData → IoConfig → Io IoConfig
  forward cmd p config = do
    o ← perform_io drivers config p cmd (some success_callback) (some error_callback)
    pure o.config

  -- What a request does, up to the reply; the configuration is the server's parameter.
  unfoldable pub run_request : RequestT → IoData → IoConfig → Io IoConfig
  run_request request_err p config = do error_callback (text "Invalid request type"); pure config
  run_request request_get p config = forward cmd_read p config
  run_request request_set p config = forward cmd_write p config

  unfoldable pub http_request_handler : Connection → IoConfig → Io (ℤ × IoConfig)
  http_request_handler conn config = do
    set_buf []
    (type, parts) ← deref (parse_uri conn.uri)
    print_request conn.uri parts type
    config' ← run_request type parts config
    content ← get_buf
    emit (Event.mg_printf (http_reply content))
    pure (mg_true, config')

  unfoldable pub event_handler : Connection → MgEvent → IoConfig → Io (ℤ × IoConfig)
  event_handler conn mg_request config =
      if conn.is_websocket then pure (mg_true, config) else http_request_handler conn config
  event_handler conn mg_auth config = pure (mg_true, config)
  event_handler conn mg_other config = pure (mg_false, config)

-- The options come in pairs of name and value; an odd one would be read past the end.
unfoldable pub set_options : List Bytes → Io (Unit {0})
set_options [] = pure tt
set_options (name ∷ []) = undefined_behaviour
set_options (name ∷ value ∷ rest) = do emit (Event.mg_set_option name value); set_options rest

unfoldable pub start_http_server : List Bytes → Io (Unit {0})
start_http_server http_options = do emit Event.mg_create_server; set_options http_options

unfoldable pub stop_http_server : Io ℤ
stop_http_server = do emit Event.mg_destroy_server; pure (pos 0)
