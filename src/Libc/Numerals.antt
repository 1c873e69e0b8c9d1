-- ===== src/Libc/Numerals.antt =====
-- Numerals as a grammar, and what `strtol` and `strtoul` make of them and of any other text.
use native.Mathlib.Nat.{pow-zero, pow-succ', mul_assoc, mul-one, zero-mul, zero-add}
use switcher_c.Base.{
  ℕ, suc, ◌+◌, ◌-◌, ◌*◌, ◌%◌, ◌^◌, ◌≡◌, ◌∙◌, refl, sym, ap, Bool, true, false, Option, none, some,
  [], ◌∷◌, arith, ltb, ◌==◌, if◌then◌else◌, inl, inr, ◌⊎◌, Bool-cases, Option-cases,
}
use switcher_c.Base.Int.{ℤ, pos, negsuc}
use switcher_c.Base.Lists.{length, some-inj}
use switcher_c.Base.Text.{Bytes}
use switcher_c.Libc.{
  at_end, digit_value, digits_from, starts_digit, skip_space, skip_prefix, take_sign, Signed,
  parsed, strtol, strtoul, long_max, ulong_max,
}

-- The number that a text of digits writes, by the place of each; `none` if another byte is among them.
unfoldable pub place_value : ℕ → Bytes → Option ℕ
place_value base [] = some 0
place_value base (c ∷ s) = elim (digit_value base c) [
  | none ↦ none
  | some d ↦ elim (place_value base s) [ none ↦ none | some v ↦ some (d * base ^ length s + v) ]
]

-- One digit or more.
unfoldable pub natural : ℕ → Bytes → Option ℕ
unfolding place_value
natural base [] = none
natural base (c ∷ s) = place_value base (c ∷ s)

-- A sign and a number.
pub record Numeral : Type 0 where
  pub negative : Bool
  pub absolute : ℕ

-- Blanks, a sign and, in base 16, `0x` may stand before the digits; nothing may stand behind them.
unfoldable pub numeral : ℕ → Bytes → Option Numeral
unfolding natural
numeral base s =
    let signed = take_sign (skip_space s) in
    elim (natural base (skip_prefix base signed.digits)) [
      | none ↦ none
      | some v ↦ some (record { negative = signed.negative; absolute = v })
    ]

-- A numeral as a 64-bit `long`: the nearest one.
abbrev pub to_long : Numeral → ℤ
to_long n =
    if n.negative
    then if n.absolute == 0
      then pos 0
      else if ltb long_max n.absolute
      then negsuc long_max
      else negsuc (n.absolute - 1)
    else pos (if ltb long_max n.absolute then long_max else n.absolute)

-- As a 64-bit `unsigned long`: the largest if it is larger, else a negative one modulo 2^64.
abbrev pub to_ulong : Numeral → ℕ
to_ulong n =
    if ltb ulong_max n.absolute
    then ulong_max
    else if n.negative
    then (ulong_max + 1 - n.absolute) % (ulong_max + 1)
    else n.absolute

none-ne-some : {A : Type 0} {a : A} → none ≡ some a → ⊥
none-ne-some e = cc

place_value_step : (base acc d v l : ℕ) → acc * base * l + (d * l + v) ≡ (acc * base + d) * l + v
place_value_step base acc d v l = grind arith

digits_from-place_value :
    (base acc : ℕ) (s : Bytes) (v : ℕ)
    → place_value base s ≡ some v
    → digits_from base acc s ≡ parsed (acc * base ^ length s + v) []
unfolding digits_from place_value
digits_from-place_value base acc [] v e =
    let zero_v : 0 ≡ v = some-inj e in
    let one_p : acc * base ^ 0 ≡ acc = ap (λ (t : ℕ). acc * t) (pow-zero base) ∙ mul-one acc in
    let sum : acc ≡ acc * base ^ 0 + v = ground (arith, zero_v, one_p) in
    ap (λ (n : ℕ). parsed n []) sum
digits_from-place_value base acc (c ∷ s) v e = elim (Option-cases (digit_value base c)) [
  | inl other ↦
      let bad : place_value base (c ∷ s) ≡ none = rw (place_value, other) refl in
      absurd (none-ne-some (sym bad ∙ e))
  | inr (d, is) ↦ elim (Option-cases (place_value base s)) [
    | inl other ↦
        let bad : place_value base (c ∷ s) ≡ none = rw (place_value, is, other) refl in
        absurd (none-ne-some (sym bad ∙ e))
    | inr (u, rest) ↦
        let whole : place_value base (c ∷ s) ≡ some (d * base ^ length s + u) =
          rw (place_value, is, rest) refl in
        let value : d * base ^ length s + u ≡ v = some-inj (sym whole ∙ e) in
        let power : acc * base ^ suc (length s) ≡ acc * base * base ^ length s =
          ap (λ (t : ℕ). acc * t) (pow-succ' base (length s))
          ∙ sym (mul_assoc acc base (base ^ length s)) in
        let sum : (acc * base + d) * base ^ length s + u ≡ acc * base ^ suc (length s) + v =
          sym (place_value_step base acc d u (base ^ length s))
          ∙ ap (λ (t : ℕ). acc * base * base ^ length s + t) value
          ∙ ap (λ (t : ℕ). t + v) (sym power) in
        rw (digits_from, is)
          (digits_from-place_value base (acc * base + d) s u rest ∙ ap (λ (n : ℕ). parsed n []) sum)
  ]
]

digits_from-zero :
    (base : ℕ) (s : Bytes) (v : ℕ)
    → place_value base s ≡ some v
    → digits_from base 0 s ≡ parsed v []
digits_from-zero base s v e =
    digits_from-place_value base 0 s v e
    ∙ ap (λ (t : ℕ). parsed (t + v) []) (zero-mul (base ^ length s))
    ∙ ap (λ (t : ℕ). parsed t []) (zero-add v)

digits_from-stuck :
    (base acc : ℕ) (s : Bytes)
    → place_value base s ≡ none
    → at_end (digits_from base acc s).endptr ≡ false
unfolding digits_from place_value
digits_from-stuck base acc [] e = cc
digits_from-stuck base acc (c ∷ s) e = elim (Option-cases (digit_value base c)) [
  | inl other ↦ rw (digits_from, other) refl
  | inr (d, is) ↦ elim (Option-cases (place_value base s)) [
    | inl rest ↦ rw (digits_from, is) (digits_from-stuck base (acc * base + d) s rest)
    | inr (u, rest) ↦
        let whole : place_value base (c ∷ s) ≡ some (d * base ^ length s + u) =
          rw (place_value, is, rest) refl in
        absurd (none-ne-some (sym e ∙ whole))
  ]
]

starts_digit-natural : (base : ℕ) (s : Bytes) → starts_digit base s ≡ false → natural base s ≡ none
unfolding starts_digit natural place_value
starts_digit-natural base [] e = refl
starts_digit-natural base (c ∷ s) e = elim (Option-cases (digit_value base c)) [
  | inl other ↦ rw (place_value, other) refl
  | inr (d, is) ↦
      let starts : starts_digit base (c ∷ s) ≡ true = rw (starts_digit, is) refl in
      absurd (cc (starts, e))
]

natural-place_value :
    (base : ℕ) (s : Bytes) → starts_digit base s ≡ true → natural base s ≡ place_value base s
unfolding starts_digit natural
natural-place_value base [] e = cc
natural-place_value base (c ∷ s) e = refl

module _ (base c : ℕ) (s : Bytes) where
  abbrev whole : Bytes
  whole = c ∷ s

  abbrev signed : Signed
  signed = take_sign (skip_space whole)

  abbrev start : Bytes
  start = skip_prefix base signed.digits

  -- Whether a text is a numeral: the digits reach its end, or there are none or more text.
  numeral-cases :
      (starts_digit base start ≡ false) × (numeral base whole ≡ none)
      ⊎ (starts_digit base start ≡ true)
        × (numeral base whole ≡ none)
        × (at_end (digits_from base 0 start).endptr ≡ false)
      ⊎ (v : ℕ) × (starts_digit base start ≡ true)
        × (numeral base whole ≡ some (record { negative = signed.negative; absolute = v }))
        × (digits_from base 0 start ≡ parsed v [])
  unfolding numeral
  numeral-cases = elim (Bool-cases (starts_digit base start)) [
    | inl starts ↦ elim (Option-cases (place_value base start)) [
      | inl other ↦
          let e : natural base start ≡ none = natural-place_value base start starts ∙ other in
          inr (inl (starts, rw (numeral, e) refl, digits_from-stuck base 0 start other))
      | inr (v, is) ↦
          let e : natural base start ≡ some v = natural-place_value base start starts ∙ is in
          inr (inr (v, starts, rw (numeral, e) refl, digits_from-zero base start v is))
    ]
    | inr other ↦
        let e : natural base start ≡ none = starts_digit-natural base start other in
        inl (other, rw (numeral, e) refl)
  ]

  -- `strtol` and `strtoul` stop before the end of a text that is no numeral.
  pub strtol-none : numeral base whole ≡ none → at_end (strtol whole base).endptr ≡ false
  unfolding strtol
  strtol-none e = elim numeral-cases [
    | inl (other, _) ↦ rw (strtol, other) refl
    | inr (inl (starts, _, more)) ↦ elim (Bool-cases signed.negative) [
      | inl minus ↦ rw (strtol, starts) (rw minus more)
      | inr plus ↦ rw (strtol, starts) (rw plus more)
    ]
    | inr (inr (v, _, is, _)) ↦ absurd (none-ne-some (sym e ∙ is))
  ]

  pub strtoul-none : numeral base whole ≡ none → at_end (strtoul whole base).endptr ≡ false
  unfolding strtoul
  strtoul-none e = elim numeral-cases [
    | inl (other, _) ↦ rw (strtoul, other) refl
    | inr (inl (starts, _, more)) ↦
        elim (Bool-cases (ltb ulong_max (digits_from base 0 start).number)) [
          | inl large ↦ rw (strtoul, starts) (rw large more)
          | inr small ↦ rw (strtoul, starts) (rw small more)
        ]
    | inr (inr (v, _, is, _)) ↦ absurd (none-ne-some (sym e ∙ is))
  ]

  module _ (n : Numeral) (is_numeral : numeral base whole ≡ some n) where
    numeral-digits :
        (starts_digit base start ≡ true)
        × (signed.negative ≡ n.negative)
        × (digits_from base 0 start ≡ parsed n.absolute [])
    numeral-digits = elim numeral-cases [
      | inl (_, nope) ↦ absurd (none-ne-some (sym nope ∙ is_numeral))
      | inr (inl (_, nope, _)) ↦ absurd (none-ne-some (sym nope ∙ is_numeral))
      | inr (inr (v, starts, is, all)) ↦
          let same : record { negative = signed.negative; absolute = v } ≡ n =
            some-inj (sym is ∙ is_numeral) in
          (starts, ap (λ m. m.negative) same, all ∙ ap (λ m. parsed m.absolute []) same)
    ]

    -- They take all of one that is, and its value.
    pub strtol-numeral : strtol whole base ≡ parsed (to_long n) []
    unfolding strtol
    strtol-numeral =
        let (starts, sign, all) = numeral-digits in
        elim (Bool-cases n.negative) [
          | inl minus ↦ rw (strtol, starts) (rw (sign, all) (rw minus refl))
          | inr plus ↦ rw (strtol, starts) (rw (sign, all) (rw plus refl))
        ]

    pub strtoul-numeral : strtoul whole base ≡ parsed (to_ulong n) []
    unfolding strtoul
    strtoul-numeral =
        let (starts, sign, all) = numeral-digits in
        elim (Bool-cases (ltb ulong_max n.absolute)) [
          | inl large ↦ rw (strtoul, starts) (rw (sign, all) (rw large refl))
          | inr small ↦ rw (strtoul, starts) (rw (sign, all) (rw small refl))
        ]
