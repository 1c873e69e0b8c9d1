-- ===== src/Main/Quiet.antt =====
-- src/http.c and src/main.c: a sequence of events neither makes nor gives back a block.
use switcher_c.Base.{ℕ, refl, List, [], ◌∷◌, ◌++◌, not}
use switcher_c.Base.Int.{eqb_ℤ}
use switcher_c.Base.Text.{Bytes, text}
use switcher_c.Config.{IoConfig, IoData, cmd_write, cmd_read, idx_invalid}
use switcher_c.Http.{
  RequestT, request_get, request_set, request_err, Connection, MgEvent, mg_request, mg_auth,
  mg_other, mg_true, mg_false, parse_uri, append_message, request_name, is_error, is_set,
  print_parts, print_request, http_reply, forward, run_request, http_request_handler, event_handler,
}
use switcher_c.Http.Quiet.{error-KeepsBlocks, perform_io-KeepsBlocks}
use switcher_c.Libc.{format_d, format_02x}
use switcher_c.Main.{serve_all}
use switcher_c.Tables.{drivers}
use switcher_c.World.{Object, Event}
use switcher_c.World.Quiet.{
  KeepsBlocks, pure-KeepsBlocks, bind-KeepsBlocks, if-KeepsBlocks, deref-KeepsBlocks,
  emit-KeepsBlocks, set_buf-KeepsBlocks, fault-KeepsBlocks, get_buf-KeepsBlocks,
}

module _ (k g : Object → ℕ) where
  append-KeepsBlocks : (m s : Bytes) → KeepsBlocks k g (append_message m s)
  unfolding append_message
  append-KeepsBlocks m s =
      if-KeepsBlocks k g _ (pure-KeepsBlocks k g (m ++ s)) (fault-KeepsBlocks k g)

  print_parts-KeepsBlocks :
      (m : Bytes) (p : IoData) (t : RequestT) → KeepsBlocks k g (print_parts m p t)
  unfolding print_parts
  print_parts-KeepsBlocks m p t =
      bind-KeepsBlocks k g
        (append-KeepsBlocks m
          (text ", Bus: " ++ (format_d p.idx_bus ++ (text ", Device: " ++ format_d p.idx_dev))))
        λ m1.
          bind-KeepsBlocks k g
            (if-KeepsBlocks k g (not (eqb_ℤ p.idx_sub_dev idx_invalid))
              (append-KeepsBlocks m1 (text ", Sub-Device: " ++ format_d p.idx_sub_dev))
              (pure-KeepsBlocks k g m1))
            λ m2.
              if-KeepsBlocks k g (is_set t)
                (append-KeepsBlocks m2 (text ", Value: 0x" ++ format_02x p.value))
                (pure-KeepsBlocks k g m2)

  print_request-KeepsBlocks :
      (uri : Bytes) (p : IoData) (t : RequestT) → KeepsBlocks k g (print_request uri p t)
  unfolding print_request
  print_request-KeepsBlocks uri p t =
      bind-KeepsBlocks k g (append-KeepsBlocks [] (request_name t)) λ m.
        bind-KeepsBlocks k g (append-KeepsBlocks m (text "URI: " ++ uri)) λ m1.
          bind-KeepsBlocks k g
            (if-KeepsBlocks k g (is_error t) (pure-KeepsBlocks k g m1)
              (print_parts-KeepsBlocks m1 p t))
            λ message. emit-KeepsBlocks k g (Event.put_syslog message) refl

  run_request-KeepsBlocks :
      (t : RequestT) (p : IoData) (c : IoConfig) → KeepsBlocks k g (run_request drivers t p c)
  unfolding run_request forward
  run_request-KeepsBlocks request_err p c =
      bind-KeepsBlocks k g (error-KeepsBlocks k g (text "Invalid request type"))
        λ _. pure-KeepsBlocks k g c
  run_request-KeepsBlocks request_get p c =
      bind-KeepsBlocks k g (perform_io-KeepsBlocks k g c p cmd_read)
        λ o. pure-KeepsBlocks k g o.config
  run_request-KeepsBlocks request_set p c =
      bind-KeepsBlocks k g (perform_io-KeepsBlocks k g c p cmd_write)
        λ o. pure-KeepsBlocks k g o.config

  handler-KeepsBlocks :
      (conn : Connection) (c : IoConfig) → KeepsBlocks k g (http_request_handler drivers conn c)
  unfolding http_request_handler
  handler-KeepsBlocks conn c = bind-KeepsBlocks k g (set_buf-KeepsBlocks k g []) λ _.
      bind-KeepsBlocks k g (deref-KeepsBlocks k g (parse_uri conn.uri)) λ r.
        bind-KeepsBlocks k g (print_request-KeepsBlocks conn.uri r.1 r.0) λ _.
          bind-KeepsBlocks k g (run_request-KeepsBlocks r.0 r.1 c) λ c'.
            bind-KeepsBlocks k g (get_buf-KeepsBlocks k g) λ content.
              bind-KeepsBlocks k g
                (emit-KeepsBlocks k g (Event.mg_printf (http_reply content)) refl)
                λ _. pure-KeepsBlocks k g (mg_true, c')

  event-KeepsBlocks :
      (conn : Connection) (event : MgEvent) (c : IoConfig)
      → KeepsBlocks k g (event_handler drivers conn event c)
  unfolding event_handler
  event-KeepsBlocks conn mg_request c =
      if-KeepsBlocks k g conn.is_websocket (pure-KeepsBlocks k g (mg_true, c))
        (handler-KeepsBlocks conn c)
  event-KeepsBlocks conn mg_auth c = pure-KeepsBlocks k g (mg_true, c)
  event-KeepsBlocks conn mg_other c = pure-KeepsBlocks k g (mg_false, c)

  -- No sequence of events, whatever its requests are, makes a block or gives one back.
  pub serve_all-KeepsBlocks :
      (requests : List (Connection × MgEvent)) (c : IoConfig)
      → KeepsBlocks k g (serve_all requests c)
  unfolding serve_all
  serve_all-KeepsBlocks [] c = pure-KeepsBlocks k g c
  serve_all-KeepsBlocks ((conn, event) ∷ rest) c =
      bind-KeepsBlocks k g (event-KeepsBlocks conn event c) λ r. serve_all-KeepsBlocks rest r.1
