-- ===== src/Tests/Server.antt =====
-- src/http.c: the theorems on the request handler and on the log message, applied.
use switcher_c.Base.{◌++◌, ◌≡◌, refl, inr, arith, some, none, false, [], ◌∷◌}
use switcher_c.Base.Int.{pos, to_int32}
use switcher_c.Base.Lists.{replicate}
use switcher_c.Base.Text.{Bytes, text}
use switcher_c.Http.{Connection, request_set, parse_uri, print_request, http_request_handler}
use switcher_c.Http.Message.{print_request-Returns, print_request-fault}
use switcher_c.Http.Reading.{view, beyond, refused, asks_set}
use switcher_c.Http.Reference.{parse_uri-read_tokens}
use switcher_c.Libc.Split.{tokens, ended_tokens}
use switcher_c.Libc.Numerals.{numeral, natural, place_value}
use switcher_c.Libc.{digit_value, skip_space, is_space, take_sign, skip_prefix, starts_digit}
use switcher_c.Config.{init_io_data}
use switcher_c.Http.RoundTrip.{parse_uri-uri}
use switcher_c.Http.Uri.{uri}
use switcher_c.Http.Serve.{Replied, http_request_handler-Replied}
use switcher_c.IoCore.Serve.{digit}
use switcher_c.Tables.{drivers}
use switcher_c.Tables.Ready.{contract}
use switcher_c.Tests.{env, start, config, set_pin, config-Serves}
use switcher_c.Libc.{print_ℕ, print_onto}
use switcher_c.World.{Event, fault}
use switcher_c.World.Returns.{Returns}

-- `/0/0.5/1`.
parse_uri-uri_example : parse_uri (uri 0 0 (some 5) (some 1)) ≡ some (request_set, set_pin)
parse_uri-uri_example =
    parse_uri-uri 0 0 (some 5) (some 1) (omega arith) (omega arith) (omega arith) (omega arith)

abbrev conn : Connection
conn = record { uri = uri 0 0 (some 5) (some 1); is_websocket = false }

http_request_handler-Replied_example :
    Returns
      (λ (rc, c) w. Replied drivers contract env none config rc c w)
      (http_request_handler drivers conn config env start)
unfolding print_ℕ print_onto
http_request_handler-Replied_example =
    http_request_handler-Replied drivers contract env conn start config-Serves refl
      (parse_uri-uri 0 0 (some 5) (some 1) (omega arith) (omega arith) (omega arith) (omega arith))
      (omega arith)
      (record {
        bus_range = omega arith;
        dev_range = omega arith;
        sub_range = inr (digit 5 refl (omega arith));
      })

print_request-Returns_example :
    Returns
      (λ _ w. (message : Bytes) × (w ≡ record start { log = Event.put_syslog message ∷ [] }))
      (print_request (text "/0/0.5/1") set_pin request_set env start)
print_request-Returns_example =
    print_request-Returns (text "/0/0.5/1") set_pin request_set env start (omega arith)

abbrev long_uri : Bytes
long_uri = replicate 1005 b'0'

print_request-fault_example : print_request long_uri set_pin request_set env start ≡ fault
print_request-fault_example =
    print_request-fault long_uri set_pin request_set env start (omega arith)

parse_uri-read_tokens_example :
    view (parse_uri (text "//0/1..5/-0xA/9"))
    ≡ asks_set
        (record { idx_bus = pos 0; idx_dev = pos 1; idx_sub_dev = pos 5; value = 4294967286 })
unfolding tokens ended_tokens init_io_data numeral natural place_value digit_value skip_space
    is_space take_sign skip_prefix starts_digit to_int32
parse_uri-read_tokens_example = parse_uri-read_tokens (text "//0/1..5/-0xA/9")

abbrev long_tail : Bytes
long_tail = replicate 1100 b'x'

-- The first two slashes of a URI of more than 1024 bytes end a token that is no number; without
-- the second one, the search for the token's end leaves the buffer.
long_refused : view (parse_uri (text "/a/" ++ long_tail)) ≡ refused
unfolding tokens ended_tokens init_io_data numeral natural place_value digit_value skip_space
    is_space take_sign skip_prefix starts_digit to_int32
long_refused = parse_uri-read_tokens (text "/a/" ++ long_tail)

long_beyond : view (parse_uri (text "/a" ++ long_tail)) ≡ beyond
unfolding tokens ended_tokens
long_beyond = parse_uri-read_tokens (text "/a" ++ long_tail)
