-- ===== src/Http/Uri.antt =====
-- src/http.c: the URIs that a client writes, and what each stage of `parse_uri` reads of them.
use switcher_c.Base.{
  ℕ, ◌^◌, ◌≤◌, ◌<◌, ◌≡◌, ◌≢◌, refl, true, Option, none, some, [], ◌∷◌, ◌++◌, arith,
}
use switcher_c.Base.Int.{pos, to_int32-pos, u32_mod}
use switcher_c.Base.Lists.{All}
use switcher_c.Base.Text.{Bytes}
use switcher_c.Config.{IoData, idx_invalid}
use switcher_c.Http.{
  RequestT, request_get, request_set, staged, parse_bus, parse_dev, parse_sub_dev, parse_value,
}
use switcher_c.Libc.Numbers.{
  IsPrinted, print_ℕ-IsPrinted, print_ℕ-ne_nil, strtol-print_ℕ, strtoul-print_ℕ,
}
use switcher_c.Libc.Tokens.{Avoids, strtok-last, strtok-append, strtok-nil}
use switcher_c.Libc.{print_ℕ}

abbrev pub dec : ℕ → Bytes
dec = print_ℕ 10

-- `device` or `device.sub`.
abbrev pub dev_text : ℕ → Option ℕ → Bytes
dev_text j none = dec j
dev_text j (some k) = dec j ++ b'.' ∷ dec k

-- `/bus/device`, `/bus/device.sub`, and either with a value, `/bus/device/value`.
abbrev pub uri : ℕ → ℕ → Option ℕ → Option ℕ → Bytes
uri i j k none = b'/' ∷ (dec i ++ b'/' ∷ dev_text j k)
uri i j k (some v) = b'/' ∷ (dec i ++ b'/' ∷ (dev_text j k ++ b'/' ∷ print_ℕ 16 v))

-- What the URI asks for.
abbrev pub parts : ℕ → ℕ → Option ℕ → Option ℕ → IoData
parts i j k v = record {
  idx_bus = pos i;
  idx_dev = pos j;
  idx_sub_dev = elim k [ none ↦ idx_invalid | some k ↦ pos k ];
  value = elim v [ none ↦ 0 | some v ↦ v ];
}

abbrev pub request : Option ℕ → RequestT
request none = request_get
request (some _) = request_set

pub Avoids-IsPrinted : (delim : ℕ) (s : Bytes) → delim < b'0' → All IsPrinted s → Avoids delim s
Avoids-IsPrinted delim [] h a = tt
Avoids-IsPrinted delim (c ∷ s) h a = (ground arith, Avoids-IsPrinted delim s h a.1)

pub Avoids-print_ℕ :
    (delim base n : ℕ) → delim < b'0' → 0 < base → base ≤ 16 → Avoids delim (print_ℕ base n)
Avoids-print_ℕ delim base n h p q = Avoids-IsPrinted delim _ h (print_ℕ-IsPrinted base n p q)

pub Avoids-dec : (delim n : ℕ) → delim < b'0' → Avoids delim (dec n)
Avoids-dec delim n h = Avoids-print_ℕ delim 10 n h (omega arith) (omega arith)

pub Avoids-hex : (delim n : ℕ) → delim < b'0' → Avoids delim (print_ℕ 16 n)
Avoids-hex delim n h = Avoids-print_ℕ delim 16 n h (omega arith) (omega arith)

pub Avoids-append :
    (delim : ℕ) (s t : Bytes) → Avoids delim s → Avoids delim t → Avoids delim (s ++ t)
Avoids-append delim [] t a b = b
Avoids-append delim (c ∷ s) t a b = (a.0, Avoids-append delim s t a.1 b)

pub Avoids-dev_text : (j : ℕ) (k : Option ℕ) → Avoids b'/' (dev_text j k)
Avoids-dev_text j none = Avoids-dec b'/' j (omega arith)
Avoids-dev_text j (some k) =
    Avoids-append _ (dec j) (b'.' ∷ dec k) (Avoids-dec b'/' j (omega arith))
      (refl, Avoids-dec b'/' k (omega arith))

pub append-ne_nil : (s t : Bytes) → s ≢ [] → s ++ t ≢ []
append-ne_nil [] t h = absurd (h refl)
append-ne_nil (c ∷ s) t h = ground arith

pub dev_text-ne_nil : (j : ℕ) (k : Option ℕ) → dev_text j k ≢ []
dev_text-ne_nil j none = print_ℕ-ne_nil 10 j
dev_text-ne_nil j (some k) = append-ne_nil (dec j) _ (print_ℕ-ne_nil 10 j)

pub parse_bus-dec :
    (i : ℕ) (p : IoData)
    → i < 2 ^ 31
    → parse_bus (dec i) p ≡ staged true (record p { idx_bus = pos i })
unfolding parse_bus
parse_bus-dec i p h = rw (strtol-print_ℕ i (omega arith), to_int32-pos i h)

-- A sub-device index that an `int32_t` holds.
abbrev pub SubFits : Option ℕ → Type 0
SubFits none = Unit {0}
SubFits (some k) = k < 2 ^ 31

abbrev pub with_dev : ℕ → Option ℕ → IoData → IoData
with_dev j k p = record p {
  idx_dev = pos j;
  idx_sub_dev = elim k [ none ↦ idx_invalid | some k ↦ pos k ];
}

pub parse_dev-dev_text :
    (j : ℕ) (k : Option ℕ) (p : IoData)
    → j < 2 ^ 31
    → SubFits k
    → p.idx_sub_dev ≡ idx_invalid
    → parse_dev (dev_text j k) p ≡ some (staged true (with_dev j k p))
unfolding parse_dev parse_sub_dev
parse_dev-dev_text j none p hj hk fresh =
    let tok = strtok-last b'.' (dec j) (print_ℕ-ne_nil 10 j) (Avoids-dec b'.' j (omega arith)) in
    rw (parse_dev, tok, strtol-print_ℕ j (omega arith), to_int32-pos j hj)
      (rw (strtok-nil b'.') (ground arith))
parse_dev-dev_text j (some k) p hj hk fresh =
    let tok =
      strtok-append b'.' (dec j) (dec k) (print_ℕ-ne_nil 10 j) (Avoids-dec b'.' j (omega arith)) in
    let sub = strtok-last b'.' (dec k) (print_ℕ-ne_nil 10 k) (Avoids-dec b'.' k (omega arith)) in
    rw (parse_dev, tok, strtol-print_ℕ j (omega arith), to_int32-pos j hj)
      (rw (sub, strtol-print_ℕ k (omega arith), to_int32-pos k hk))

pub parse_value-hex :
    (v : ℕ) (p : IoData)
    → v < u32_mod
    → parse_value (print_ℕ 16 v) p ≡ staged true (record p { value = v })
unfolding parse_value
parse_value-hex v p h = rw (strtoul-print_ℕ v (omega arith)) (ground arith)
