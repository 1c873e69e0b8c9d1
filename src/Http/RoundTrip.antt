-- ===== src/Http/RoundTrip.antt =====
-- src/http.c: `parse_uri` on the URIs that a client writes.
use switcher_c.Base.{
  ℕ, ◌^◌, ◌≤◌, ◌<◌, ◌≡◌, ◌∙◌, refl, ap, true, Option, none, some, List, [], ◌∷◌, ◌++◌, arith,
  lt→ltb,
}
use switcher_c.Base.Int.{pos, u32_mod}
use switcher_c.Base.Lists.{take, take-of_le, length, length-append}
use switcher_c.Base.Text.{Bytes}
use switcher_c.Config.{IoData, init_io_data, idx_invalid}
use switcher_c.Http.{
  RequestT, request_err, request_get, request_set, UriStage, stage_bus, stage_dev, stage_value,
  staged, parse_uri, parse_stages, parse_stage, stage_result, buf_len,
}
use switcher_c.Libc.Numbers.{print_ℕ-ne_nil, length-print_ℕ}
use switcher_c.Libc.Tokens.{strtok-last, strtok-append, strtok-skip}
use switcher_c.Libc.{print_ℕ, strtok, strtok_in}
use switcher_c.Http.Uri.{
  dec, dev_text, uri, parts, request, Avoids-dec, Avoids-hex, Avoids-dev_text, dev_text-ne_nil,
  parse_bus-dec, SubFits, with_dev, parse_dev-dev_text, parse_value-hex,
}

-- A stage that takes its token leaves the rest to the stages that are left.
parse_stages_step :
    (stage : UriStage) (stages : List UriStage) (result : RequestT) (p q : IoData)
    (rest token rest' : Bytes)
    → strtok b'/' rest ≡ some (token, rest')
    → parse_stage stage token p ≡ some (staged true q)
    → parse_stages true (stage ∷ stages) result p rest
      ≡ parse_stages true stages (stage_result stage result) q rest'
unfolding parse_stages strtok_in
parse_stages_step stage stages result p q rest token rest' tok took = ground arith

parse_stages-end :
    (stages : List UriStage) (result : RequestT) (p : IoData)
    → parse_stages true stages result p [] ≡ some (result, p)
unfolding parse_stages strtok_in strtok
parse_stages-end [] result p = refl
parse_stages-end (stage ∷ stages) result p = refl

-- The stages on the rest of the URI, from the last to the first.
stage_value-lem :
    (v : ℕ) (p : IoData)
    → v < u32_mod
    → parse_stages true (stage_value ∷ []) request_get p (print_ℕ 16 v)
      ≡ some (request_set, record p { value = v })
unfolding parse_stage stage_result
stage_value-lem v p h =
    let tok =
      strtok-last b'/' (print_ℕ 16 v) (print_ℕ-ne_nil 16 v) (Avoids-hex b'/' v (omega arith)) in
    parse_stages_step stage_value [] request_get p _ _ _ _ tok (ap some (parse_value-hex v p h))
    ∙ parse_stages-end [] request_set _

stage_dev-none :
    (j : ℕ) (k : Option ℕ) (p : IoData)
    → j < 2 ^ 31
    → SubFits k
    → p.idx_sub_dev ≡ idx_invalid
    → parse_stages true (stage_dev ∷ stage_value ∷ []) request_err p (dev_text j k)
      ≡ some (request_get, with_dev j k p)
unfolding parse_stage stage_result
stage_dev-none j k p hj hk fresh =
    let tok = strtok-last b'/' (dev_text j k) (dev_text-ne_nil j k) (Avoids-dev_text j k) in
    parse_stages_step stage_dev _ request_err p _ _ _ _ tok (parse_dev-dev_text j k p hj hk fresh)
    ∙ parse_stages-end _ request_get _

stage_dev-some :
    (j : ℕ) (k : Option ℕ) (v : ℕ) (p : IoData)
    → j < 2 ^ 31
    → SubFits k
    → v < u32_mod
    → p.idx_sub_dev ≡ idx_invalid
    → parse_stages true
        (stage_dev ∷ stage_value ∷ [])
        request_err
        p
        (dev_text j k ++ b'/' ∷ print_ℕ 16 v)
      ≡ some (request_set, record (with_dev j k p) { value = v })
unfolding parse_stage stage_result
stage_dev-some j k v p hj hk hv fresh =
    let tok =
      strtok-append b'/' (dev_text j k) (print_ℕ 16 v) (dev_text-ne_nil j k)
        (Avoids-dev_text j k) in
    parse_stages_step stage_dev _ request_err p _ _ _ _ tok (parse_dev-dev_text j k p hj hk fresh)
    ∙ stage_value-lem v _ hv

stage_bus-lem :
    (i : ℕ) (rest : Bytes)
    → i < 2 ^ 31
    → parse_stages true
        (stage_bus ∷ stage_dev ∷ stage_value ∷ [])
        request_err
        init_io_data
        (b'/' ∷ (dec i ++ b'/' ∷ rest))
      ≡ parse_stages true
          (stage_dev ∷ stage_value ∷ [])
          request_err
          (record init_io_data { idx_bus = pos i })
          rest
unfolding parse_stage stage_result
stage_bus-lem i rest hi =
    let tok =
      strtok-skip b'/' (dec i ++ b'/' ∷ rest)
      ∙ strtok-append b'/' (dec i) rest (print_ℕ-ne_nil 10 i) (Avoids-dec b'/' i (omega arith)) in
    parse_stages_step stage_bus _ request_err init_io_data _ _ _ _ tok
      (ap some (parse_bus-dec i init_io_data hi))

length-dev_text : (j : ℕ) (k : Option ℕ) → length (dev_text j k) ≤ 67
length-dev_text j none = omega (arith, length-print_ℕ 10 j)
length-dev_text j (some k) =
    omega
      (arith, length-append {0} (dec j) (b'.' ∷ dec k), length-print_ℕ 10 j, length-print_ℕ 10 k)

length-uri : (i j : ℕ) (k v : Option ℕ) → length (uri i j k v) < buf_len
length-uri i j k none = omega (
  arith,
  length-append {0} (dec i) (b'/' ∷ dev_text j k),
  length-print_ℕ 10 i,
  length-dev_text j k,
)
length-uri i j k (some v) = omega (
  arith,
  length-append {0} (dec i) (b'/' ∷ (dev_text j k ++ b'/' ∷ print_ℕ 16 v)),
  length-append {0} (dev_text j k) (b'/' ∷ print_ℕ 16 v),
  length-print_ℕ 10 i,
  length-dev_text j k,
  length-print_ℕ 16 v,
)

-- All of the URI is copied, with a NUL behind it.
whole_uri :
    (i j : ℕ) (k v : Option ℕ)
    → parse_uri (uri i j k v)
      ≡ parse_stages true
          (stage_bus ∷ stage_dev ∷ stage_value ∷ [])
          request_err
          init_io_data
          (uri i j k v)
unfolding parse_uri
whole_uri i j k v =
    let short = length-uri i j k v in
    let stages = stage_bus ∷ stage_dev ∷ stage_value ∷ [] in
    ap (λ b. parse_stages b stages request_err init_io_data (take buf_len (uri i j k v)))
      (lt→ltb _ _ short)
    ∙ ap (parse_stages true stages request_err init_io_data)
        (take-of_le buf_len (uri i j k v) (omega (arith, short)))

-- A value that a `value_t` holds.
abbrev pub ValueFits : Option ℕ → Type 0
ValueFits none = Unit {0}
ValueFits (some v) = v < u32_mod

-- A URI `/bus/device`, with a sub-device behind a dot, a hexadecimal value, both or neither, is
-- read back: the indices and the value are those written, a value makes it a SET request and its
-- absence a GET, and what is left out keeps its initial value. The indices are below 2^31 and the
-- value below 2^32.
pub parse_uri-uri :
    (i j : ℕ) (k v : Option ℕ)
    → i < 2 ^ 31
    → j < 2 ^ 31
    → SubFits k
    → ValueFits v
    → parse_uri (uri i j k v) ≡ some (request v, parts i j k v)
unfolding parse_uri init_io_data
parse_uri-uri i j k none hi hj hk hv =
    whole_uri i j k none ∙ stage_bus-lem i (dev_text j k) hi ∙ stage_dev-none j k _ hj hk refl
parse_uri-uri i j k (some v) hi hj hk hv =
    whole_uri i j k (some v)
    ∙ stage_bus-lem i (dev_text j k ++ b'/' ∷ print_ℕ 16 v) hi
    ∙ stage_dev-some j k v _ hj hk hv refl
