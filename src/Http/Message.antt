-- ===== src/Http/Message.antt =====
-- src/http.c: the length of the log message of `print_request`, and its buffer.
use switcher_c.Base.{
  ℕ, ◌+◌, ◌≤◌, ◌<◌, ◌≡◌, ◌∙◌, refl, ap, Bool, true, false, [], ◌∷◌, ◌++◌, arith, ltb, lt→ltb,
  le→ltb, not, if◌then◌else◌,
}
use switcher_c.Base.Int.{ℤ, pos, negsuc, eqb_ℤ}
use switcher_c.Base.Lists.{length, length-append, length-map}
use switcher_c.Base.Text.{Bytes, text}
use switcher_c.Config.{IoData, idx_invalid}
use switcher_c.Http.{
  RequestT, request_err, request_get, request_set, append_message, request_name, print_parts,
  print_request, buf_len, is_error, is_set,
}
use switcher_c.Libc.Numbers.{length-print_ℕ}
use switcher_c.Libc.{format_d, format_x, format_02x, to_upper, print_ℕ}
use switcher_c.World.{Event, Env, World, fault, pure, log_event}
use switcher_c.World.Returns.{Returns, returns, bind, weaken}

-- The longest URI for which the message is known to fit.
abbrev pub uri_limit : ℕ
uri_limit = 800

length-format_d : (z : ℤ) → length (format_d z) ≤ 34
unfolding format_d
length-format_d (pos n) = omega (arith, length-print_ℕ 10 n)
length-format_d (negsuc n) = omega (arith, length-print_ℕ 10 (n + 1))

length-format_02x : (n : ℕ) → length (format_02x n) ≤ 34
unfolding format_02x format_x
length-format_02x n = ground (arith, length-map (print_ℕ 16 n) to_upper, length-print_ℕ 16 n)

-- The text is appended and nothing else happens.
abbrev Grows : Bytes → Bytes → World → Bytes → World → Type 0
Grows m s w m' w' = (w' ≡ w) × (length m' ≡ length m + length s)

append_message-Returns :
    (m s : Bytes) (env : Env) (w : World)
    → length m + length s < buf_len
    → Returns (Grows m s w) (append_message m s env w)
unfolding append_message
append_message-Returns m s env w h = rw (lt→ltb _ _ h) (returns (refl, length-append m s))

-- An append that is made only under a test.
append_if-Returns :
    (b : Bool) (m s : Bytes) (env : Env) (w : World)
    → length m + length s < buf_len
    → Returns
        (λ m' w'. (w' ≡ w) × (length m' ≤ length m + length s))
        ((if b then append_message m s else pure m) env w)
append_if-Returns true m s env w h =
    weaken (append_message-Returns m s env w h) λ m' w' (e, l). (e, omega arith)
append_if-Returns false m s env w h = returns (refl, omega arith)

-- The three texts that `print_parts` appends.
abbrev parts_text : IoData → Bytes
parts_text p = text ", Bus: " ++ (format_d p.idx_bus ++ (text ", Device: " ++ format_d p.idx_dev))

length-parts_text : (p : IoData) → length (parts_text p) ≤ 85
length-parts_text p = omega (
  arith,
  length-append {0} (text ", Bus: ")
      (format_d p.idx_bus ++ (text ", Device: " ++ format_d p.idx_dev)),
  length-append {0} (format_d p.idx_bus) (text ", Device: " ++ format_d p.idx_dev),
  length-append {0} (text ", Device: ") (format_d p.idx_dev),
  length-format_d p.idx_bus,
  length-format_d p.idx_dev,
)

print_parts-Returns :
    (p : IoData) (env : Env) (w : World) (m : Bytes) (type : RequestT)
    → length m ≤ 819
    → Returns (λ _ w'. w' ≡ w) (print_parts m p type env w)
unfolding print_parts
print_parts-Returns p env w m type h =
    bind (append_message-Returns m (parts_text p) env w (omega (arith, length-parts_text p)))
      λ m1 w1 (e1, l1).
        bind
          (append_if-Returns (not (eqb_ℤ p.idx_sub_dev idx_invalid)) m1
            (text ", Sub-Device: " ++ format_d p.idx_sub_dev) env w1
            (omega (arith, length-parts_text p, sub_length)))
          λ m2 w2 (e2, l2).
            weaken
              (append_if-Returns (is_set type) m2 (text ", Value: 0x" ++ format_02x p.value) env w2
                (omega (arith, length-parts_text p, sub_length, value_length)))
              λ m3 w3 (e3, l3). e3 ∙ e2 ∙ e1
  where
    sub_length : length (text ", Sub-Device: " ++ format_d p.idx_sub_dev) ≤ 48
    sub_length = omega (arith, length-format_d p.idx_sub_dev)

    value_length : length (text ", Value: 0x" ++ format_02x p.value) ≤ 45
    value_length = omega (arith, length-format_02x p.value)

print_parts_if-Returns :
    (p : IoData) (env : Env) (w : World) (m : Bytes) (type : RequestT)
    → length m ≤ 819
    → Returns (λ _ w'. w' ≡ w) ((if is_error type then pure m else print_parts m p type) env w)
unfolding is_error
print_parts_if-Returns p env w m request_err h = returns refl
print_parts_if-Returns p env w m request_get h = print_parts-Returns p env w m request_get h
print_parts_if-Returns p env w m request_set h = print_parts-Returns p env w m request_set h

length-request_name : (type : RequestT) → length (request_name type) ≡ 14
unfolding request_name
length-request_name request_err = refl
length-request_name request_get = refl
length-request_name request_set = refl

-- With a URI of up to 800 bytes the log message stays inside its buffer: `print_request` returns
-- without undefined behaviour, logs one message, and changes nothing else.
pub print_request-Returns :
    (uri : Bytes) (p : IoData) (type : RequestT) (env : Env) (w : World)
    → length uri ≤ uri_limit
    → Returns
        (λ _ w'. (message : Bytes) × (w' ≡ record w { log = Event.put_syslog message ∷ w.log }))
        (print_request uri p type env w)
unfolding print_request
print_request-Returns uri p type env w h =
    bind
      (append_message-Returns [] (request_name type) env w
        (omega (arith, length-request_name type)))
      λ m1 w1 (e1, l1).
        bind
          (append_message-Returns m1 (text "URI: " ++ uri) env w1
            (omega (arith, length-request_name type)))
          λ m2 w2 (e2, l2).
            bind (print_parts_if-Returns p env w2 m2 type (omega (arith, length-request_name type)))
              λ m3 w3 e3. returns (m3, ap (log_event (Event.put_syslog m3)) (e3 ∙ e2 ∙ e1))

-- With a URI of 1005 bytes or more `print_request` writes past the end of its buffer: undefined
-- behaviour.
pub print_request-fault :
    (uri : Bytes) (p : IoData) (type : RequestT) (env : Env) (w : World)
    → 1005 ≤ length uri
    → print_request uri p type env w ≡ fault
unfolding print_request append_message
print_request-fault uri p type env w h =
    let first : ltb (0 + length (request_name type)) buf_len ≡ true =
      lt→ltb _ _ (omega (arith, length-request_name type)) in
    let second : ltb (length (request_name type) + length (text "URI: " ++ uri)) buf_len ≡ false =
      le→ltb _ _ (omega (arith, length-request_name type)) in
    rw first (rw second)
