-- ===== src/Http/Reference.antt =====
-- src/http.c: `parse_uri` against a reading of the list of the URI's tokens.
use switcher_c.Base.{
  ◌%◌, ◌≡◌, ◌∙◌, refl, ap, Bool, true, false, Option, none, some, List, [], ◌∷◌, inl, inr, ltb,
  if◌then◌else◌, Bool-cases, Option-cases, ℕ,
}
use switcher_c.Base.Int.{u32_mod}
use switcher_c.Base.Lists.{length, take}
use switcher_c.Base.Text.{Bytes}
use switcher_c.Config.{IoData, init_io_data}
use switcher_c.Http.{
  UriStage, RequestT, request_err, request_get, request_set, stage_bus, stage_dev, stage_value,
  Staged, parse_bus, parse_dev, parse_sub_dev, parse_value, parse_stage, stage_result, parse_stages,
  parse_uri, buf_len,
}
use switcher_c.Http.Reading.{
  Reading, beyond, refused, view, number, index, read_sub, read_dev, missing, read_end, read_value,
  read_device, read_tokens,
}
use switcher_c.Libc.Numerals.{
  numeral, to_ulong, strtol-none, strtol-numeral, strtoul-none, strtoul-numeral,
}
use switcher_c.Libc.Split.{tokens, buffer_tokens, no_token, strtok-cases, strtok_in-cases}
use switcher_c.Libc.{strtok, strtok_in}

-- How the loop goes on behind a stage.
abbrev after : Option Staged → (IoData → Reading) → Reading
after none k = beyond
after (some s) k = if s.good then k s.parts else refused

parse_bus-number :
    (c : ℕ) (t : Bytes) (p : IoData) (k : IoData → Reading)
    → after (some (parse_bus (c ∷ t) p)) k
      ≡ number (numeral 10 (c ∷ t)) (λ n. k (record p { idx_bus = index n }))
unfolding parse_bus
parse_bus-number c t p k = elim (Option-cases (numeral 10 (c ∷ t))) [
  | inl other ↦ rw (other, strtol-none 10 c t other) refl
  | inr (n, is) ↦ rw (is, strtol-numeral 10 c t n is) refl
]

parse_value-number :
    (c : ℕ) (t : Bytes) (p : IoData) (k : IoData → Reading)
    → after (some (parse_value (c ∷ t) p)) k
      ≡ number (numeral 16 (c ∷ t)) (λ n. k (record p { value = to_ulong n % u32_mod }))
unfolding parse_value
parse_value-number c t p k = elim (Option-cases (numeral 16 (c ∷ t))) [
  | inl other ↦ rw (other, strtoul-none 16 c t other) refl
  | inr (n, is) ↦ rw (is, strtoul-numeral 16 c t n is) refl
]

parse_sub_dev-read_sub :
    (rest : Bytes) (p : IoData) (k : IoData → Reading)
    → after (some (parse_sub_dev (strtok b'.' rest) p)) k ≡ read_sub (tokens b'.' rest) p k
unfolding parse_sub_dev
parse_sub_dev-read_sub rest p k = elim (strtok-cases b'.' rest) [
  | inl (done, empty) ↦ rw (done, empty) refl
  | inr (c, t, r, found, first) ↦
      rw (found, first)
        (elim (Option-cases (numeral 10 (c ∷ t))) [
          | inl other ↦ rw (other, strtol-none 10 c t other) refl
          | inr (n, is) ↦ rw (is, strtol-numeral 10 c t n is) refl
        ])
]

parse_dev-read_dev :
    (token : Bytes) (p : IoData) (k : IoData → Reading)
    → after (parse_dev token p) k ≡ read_dev (tokens b'.' token) p k
unfolding parse_dev
parse_dev-read_dev token p k = elim (strtok-cases b'.' token) [
  | inl (done, empty) ↦ rw (parse_dev, done, empty) refl
  | inr (c, t, r, found, first) ↦
      rw (parse_dev, found, first)
        (elim (Option-cases (numeral 10 (c ∷ t))) [
          | inl other ↦ rw (other, strtol-none 10 c t other) refl
          | inr (n, is) ↦
              rw (is, strtol-numeral 10 c t n is)
                (parse_sub_dev-read_sub r (record p { idx_dev = index n }) k)
        ])
]

after-cong :
    (m : Option Staged) {k k' : IoData → Reading}
    → ((q : IoData) → k q ≡ k' q)
    → after m k ≡ after m k'
after-cong none h = refl
after-cong (some s) h = ap (λ r. if s.good then r else refused) (h s.parts)

-- Without a token the loop ends; with one, its stage decides.
parse_stages-none :
    (closed : Bool) (stages : List UriStage) (result : RequestT) (p : IoData) (rest : Bytes)
    → strtok_in closed b'/' rest ≡ no_token closed
    → view (parse_stages closed stages result p rest) ≡ missing closed (view (some (result, p)))
unfolding parse_stages
parse_stages-none true [] result p rest absent = rw (parse_stages, absent) refl
parse_stages-none true (stage ∷ stages) result p rest absent = rw (parse_stages, absent) refl
parse_stages-none false [] result p rest absent = rw (parse_stages, absent) refl
parse_stages-none false (stage ∷ stages) result p rest absent = rw (parse_stages, absent) refl

module _ (closed : Bool) where
  parse_stages-some :
      (stage : UriStage) (stages : List UriStage) (result : RequestT) (p : IoData)
      (rest t r : Bytes)
      → strtok_in closed b'/' rest ≡ some (some (t, r))
      → view (parse_stages closed (stage ∷ stages) result p rest)
        ≡ after
            (parse_stage stage t p)
            (λ q. view (parse_stages closed stages (stage_result stage result) q r))
  unfolding parse_stages
  parse_stages-some stage stages result p rest t r found =
      rw (parse_stages, found)
        (elim (Option-cases (parse_stage stage t p)) [
          | inl dots ↦ rw dots refl
          | inr (s, taken) ↦
              rw taken
                (elim (Bool-cases s.good) [ inl good ↦ rw good refl | inr bad ↦ rw bad refl ])
        ])

  stages-read_end :
      (p : IoData) (rest : Bytes)
      → view (parse_stages closed [] request_set p rest)
        ≡ read_end closed p (buffer_tokens closed b'/' rest)
  unfolding parse_stages
  stages-read_end p rest = elim (strtok_in-cases closed b'/' rest) [
    | inl (absent, empty) ↦ rw empty (parse_stages-none closed [] request_set p rest absent)
    | inr (c, t, r, found, first) ↦ rw (parse_stages, found, first) refl
  ]

  stages-read_value :
      (p : IoData) (rest : Bytes)
      → view (parse_stages closed (stage_value ∷ []) request_get p rest)
        ≡ read_value closed p (buffer_tokens closed b'/' rest)
  unfolding parse_stage stage_result
  stages-read_value p rest = elim (strtok_in-cases closed b'/' rest) [
    | inl (absent, empty) ↦ rw empty (parse_stages-none closed _ request_get p rest absent)
    | inr (c, t, r, found, first) ↦ rw first (
        parse_stages-some stage_value [] request_get p rest (c ∷ t) r found
        ∙ after-cong (some (parse_value (c ∷ t) p)) (λ q. stages-read_end q r)
        ∙ parse_value-number c t p (λ q. read_end closed q (buffer_tokens closed b'/' r)))
  ]

  stages-read_device :
      (p : IoData) (rest : Bytes)
      → view (parse_stages closed (stage_dev ∷ stage_value ∷ []) request_err p rest)
        ≡ read_device closed p (buffer_tokens closed b'/' rest)
  unfolding parse_stage stage_result
  stages-read_device p rest = elim (strtok_in-cases closed b'/' rest) [
    | inl (absent, empty) ↦ rw empty (parse_stages-none closed _ request_err p rest absent)
    | inr (c, t, r, found, first) ↦ rw first (
        parse_stages-some stage_dev _ request_err p rest (c ∷ t) r found
        ∙ after-cong (parse_dev (c ∷ t) p) (λ q. stages-read_value q r)
        ∙ parse_dev-read_dev (c ∷ t) p (λ q. read_value closed q (buffer_tokens closed b'/' r)))
  ]

  stages-read_tokens :
      (rest : Bytes)
      → view (
          parse_stages closed
            (stage_bus ∷ stage_dev ∷ stage_value ∷ [])
            request_err
            init_io_data
            rest)
        ≡ read_tokens closed (buffer_tokens closed b'/' rest)
  unfolding parse_stage stage_result
  stages-read_tokens rest = elim (strtok_in-cases closed b'/' rest) [
    | inl (absent, empty) ↦
        rw empty (parse_stages-none closed _ request_err init_io_data rest absent)
    | inr (c, t, r, found, first) ↦ rw first (
        parse_stages-some stage_bus _ request_err init_io_data rest (c ∷ t) r found
        ∙ after-cong (some (parse_bus (c ∷ t) init_io_data)) (λ q. stages-read_device q r)
        ∙ parse_bus-number c t init_io_data
            (λ q. read_device closed q (buffer_tokens closed b'/' r)))
  ]

-- On every URI, `parse_uri` gives what the list of the URI's tokens asks for, whatever it leaves
-- in the parts of a request that it refuses. A token is a field between slashes that is not
-- empty. The first is the bus, a number. The second is the device: its own tokens between dots
-- are a number and, if there is a second, another number for the sub-device; further ones are
-- ignored. The third is the value, a number in base 16. Tokens from the fourth on are ignored. A
-- number is written in full: blanks, a sign and, in base 16, `0x` may stand before its digits, of
-- which there is one at least, and nothing may stand behind them; its value is the sum of the
-- digits times the powers of the base, brought into the range of `long` by taking the nearest
-- one, or for the value of `unsigned long`, where a larger one becomes the largest and a negative
-- one is taken modulo 2^64, and cut to 32 bits. A token that is to be a number and is none is
-- refused, and so is a URI with no token or a bus only; two tokens are a GET and three or more a
-- SET. Undefined behaviour is exactly this: a device token of dots only behind a bus that is a
-- number, and, in a URI of 1024 bytes or more, a search for a token that finds none, where the
-- tokens are those fields of the first 1024 bytes that a slash ends; such a search follows each
-- token that is taken, the third included.
pub parse_uri-read_tokens :
    (uri : Bytes)
    → let closed = ltb (length uri) buf_len in
      view (parse_uri uri) ≡ read_tokens closed (buffer_tokens closed b'/' (take buf_len uri))
unfolding parse_uri
parse_uri-read_tokens uri = stages-read_tokens (ltb (length uri) buf_len) (take buf_len uri)
