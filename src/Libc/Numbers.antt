-- ===== src/Libc/Numbers.antt =====
-- `snprintf` of numbers, with `strtol` and `strtoul` on what it prints.
use native.Mathlib.Nat.{pow-suc}
use switcher_c.Base.{
  ℕ, zero, suc, ◌+◌, ◌*◌, ◌/◌, ◌%◌, ◌^◌, ◌≤◌, ◌<◌, ◌≡◌, ◌≢◌, ◌∙◌, refl, ap, ◌⊎◌, inl, inr, true,
  false, some, [], ◌∷◌, arith, ltb, Bool-cases, lt→ltb,
}
use switcher_c.Base.Int.{pos}
use switcher_c.Base.Lists.{All, length}
use switcher_c.Base.Text.{Bytes}
use switcher_c.Libc.{
  digit_value, digits_from, starts_digit, skip_space, is_space, skip_prefix, take_sign, parsed,
  print_digit, print_onto, print_ℕ, strtol, strtoul,
}

module _ (base : ℕ) (two_le : 2 ≤ base) (le_16 : base ≤ 16)
    (half : (n : ℕ) → n / base ≤ n / 2) where
  digit_value-print_digit : (d : ℕ) → d < base → digit_value base (print_digit d) ≡ some d
  unfolding digit_value print_digit
  digit_value-print_digit d h = ground arith

  digits_from-print_digit :
      (a d : ℕ) (s : Bytes)
      → d < base
      → digits_from base a (print_digit d ∷ s) ≡ digits_from base (a * base + d) s
  unfolding digits_from
  digits_from-print_digit a d s h = rw (digits_from, digit_value-print_digit d h)

  digits_from_first :
      (d : ℕ) (s : Bytes) → d < base → digits_from base 0 (print_digit d ∷ s) ≡ digits_from base d s
  digits_from_first d s h =
      digits_from-print_digit 0 d s h ∙ ap (λ (t : ℕ). digits_from base t s) (omega arith)

  -- Reading a printed number takes its value over to what follows.
  digits_from-print_onto :
      (fuel n : ℕ) (s : Bytes)
      → n < 2 ^ fuel
      → digits_from base 0 (print_onto base (suc fuel) n s) ≡ digits_from base n s
  unfolding print_onto
  digits_from-print_onto zero n s h =
      rw (lt→ltb n base (omega arith)) (digits_from_first n s (omega arith))
  digits_from-print_onto (suc fuel) n s h = elim (Bool-cases (ltb n base)) [
    | inl small ↦ rw small (digits_from_first n s (ground arith))
    | inr large ↦ rw large (
        digits_from-print_onto fuel (n / base) (print_digit (n % base) ∷ s)
          (omega (arith, half n, pow-suc 2 fuel))
        ∙ digits_from-print_digit (n / base) (n % base) s (omega arith)
        ∙ ap (λ (t : ℕ). digits_from base t s) (omega arith))
  ]

  -- The first byte printed is a digit.
  print_onto_head :
      (fuel n : ℕ) (s : Bytes)
      → n < 2 ^ fuel
      → (d : ℕ) × (t : Bytes) × (d < base) × (print_onto base (suc fuel) n s ≡ print_digit d ∷ t)
  unfolding print_onto
  print_onto_head zero n s h = (n, s, omega arith, rw (lt→ltb n base (omega arith)))
  print_onto_head (suc fuel) n s h = elim (Bool-cases (ltb n base)) [
    | inl small ↦ (n, s, ground arith, rw small)
    | inr large ↦
        let (d, t, lt, e) =
          print_onto_head fuel (n / base) (print_digit (n % base) ∷ s)
            (omega (arith, half n, pow-suc 2 fuel)) in
        (d, t, lt, rw large e)
  ]

-- The bytes that a number prints as, in base 16 or less.
abbrev pub IsPrinted : ℕ → Type 0
IsPrinted c = ((b'0' ≤ c) × (c ≤ b'9')) ⊎ ((b'a' ≤ c) × (c ≤ b'f'))

print_digit-IsPrinted : (d : ℕ) → d < 16 → IsPrinted (print_digit d)
unfolding print_digit
print_digit-IsPrinted d h = elim (Bool-cases (ltb d 10)) [
  | inl low ↦ rw low (inl (ground arith))
  | inr high ↦ rw high (inr (ground arith))
]

print_onto-IsPrinted :
    (base : ℕ) (fuel n : ℕ) (s : Bytes)
    → 0 < base
    → base ≤ 16
    → All IsPrinted s
    → All IsPrinted (print_onto base fuel n s)
unfolding print_onto
print_onto-IsPrinted base zero n s p q a = a
print_onto-IsPrinted base (suc fuel) n s p q a = elim (Bool-cases (ltb n base)) [
  | inl small ↦ rw small (print_digit-IsPrinted n (ground arith), a)
  | inr large ↦ rw large (
      print_onto-IsPrinted base fuel (n / base) (print_digit (n % base) ∷ s) p q
        (print_digit-IsPrinted (n % base) (omega arith), a))
]

pub print_ℕ-IsPrinted : (base n : ℕ) → 0 < base → base ≤ 16 → All IsPrinted (print_ℕ base n)
unfolding print_ℕ
print_ℕ-IsPrinted base n p q = print_onto-IsPrinted base 33 n [] p q tt

skip_space-IsPrinted : (s : Bytes) → All IsPrinted s → skip_space s ≡ s
unfolding skip_space is_space
skip_space-IsPrinted [] a = refl
skip_space-IsPrinted (c ∷ s) a = ground arith

take_sign-IsPrinted :
    (s : Bytes) → All IsPrinted s → take_sign s ≡ record { negative = false; digits = s }
unfolding take_sign
take_sign-IsPrinted [] a = refl
take_sign-IsPrinted (c ∷ s) a = ground arith

skip_prefix-IsPrinted : (base : ℕ) (s : Bytes) → All IsPrinted s → skip_prefix base s ≡ s
unfolding skip_prefix
skip_prefix-IsPrinted base [] a = refl
skip_prefix-IsPrinted base (z ∷ []) a = refl
skip_prefix-IsPrinted base (z ∷ x ∷ s) a = ground arith

half_10 : (n : ℕ) → n / 10 ≤ n / 2
half_10 n = omega arith

half_16 : (n : ℕ) → n / 16 ≤ n / 2
half_16 n = omega arith

print_ℕ-starts_digit :
    (base n : ℕ)
    → 2 ≤ base
    → base ≤ 16
    → ((k : ℕ) → k / base ≤ k / 2)
    → n < 2 ^ 32
    → starts_digit base (print_ℕ base n) ≡ true
unfolding starts_digit print_ℕ
print_ℕ-starts_digit base n p q half h =
    let (d, t, lt, e) = print_onto_head base p q half 32 n [] h in
    rw e (rw (starts_digit, digit_value-print_digit base p q half d lt))

digits_from-print_ℕ :
    (base n : ℕ)
    → 2 ≤ base
    → base ≤ 16
    → ((k : ℕ) → k / base ≤ k / 2)
    → n < 2 ^ 32
    → digits_from base 0 (print_ℕ base n) ≡ parsed n []
unfolding print_ℕ
digits_from-print_ℕ base n p q half h =
    digits_from-print_onto base p q half 32 n [] h ∙ (unfold digits_from in refl)

-- What `%d` prints of a number that is not negative, `strtol` reads back, and all of it.
pub strtol-print_ℕ : (n : ℕ) → n < 2 ^ 32 → strtol (print_ℕ 10 n) 10 ≡ parsed (pos n) []
unfolding strtol
strtol-print_ℕ n h =
    let a = print_ℕ-IsPrinted 10 n (omega arith) (omega arith) in
    let starts = print_ℕ-starts_digit 10 n (omega arith) (omega arith) half_10 h in
    let reads = digits_from-print_ℕ 10 n (omega arith) (omega arith) half_10 h in
    rw
      (
        skip_space-IsPrinted _ a,
        take_sign-IsPrinted _ a,
        skip_prefix-IsPrinted 10 _ a,
        starts,
        reads,
      )
      (ground arith)

-- What `%x` prints, `strtoul` reads back, and all of it.
pub strtoul-print_ℕ : (n : ℕ) → n < 2 ^ 32 → strtoul (print_ℕ 16 n) 16 ≡ parsed n []
unfolding strtoul
strtoul-print_ℕ n h =
    let a = print_ℕ-IsPrinted 16 n (omega arith) (omega arith) in
    let starts = print_ℕ-starts_digit 16 n (omega arith) (omega arith) half_16 h in
    let reads = digits_from-print_ℕ 16 n (omega arith) (omega arith) half_16 h in
    rw
      (
        skip_space-IsPrinted _ a,
        take_sign-IsPrinted _ a,
        skip_prefix-IsPrinted 16 _ a,
        starts,
        reads,
      )
      (ground arith)

length-print_onto :
    (base fuel n : ℕ) (s : Bytes) → length (print_onto base fuel n s) ≤ fuel + length s
unfolding print_onto
length-print_onto base zero n s = omega arith
length-print_onto base (suc fuel) n s =
    ground (arith, length-print_onto base fuel (n / base) (print_digit (n % base) ∷ s))

pub length-print_ℕ : (base n : ℕ) → length (print_ℕ base n) ≤ 33
unfolding print_ℕ
length-print_ℕ base n = omega (arith, length-print_onto base 33 n [])

length-le-print_onto : (base fuel n : ℕ) (s : Bytes) → length s ≤ length (print_onto base fuel n s)
unfolding print_onto
length-le-print_onto base zero n s = omega arith
length-le-print_onto base (suc fuel) n s =
    ground (arith, length-le-print_onto base fuel (n / base) (print_digit (n % base) ∷ s))

print_onto_pos : (base fuel n : ℕ) → 0 < length (print_onto base (suc fuel) n [])
unfolding print_onto
print_onto_pos base fuel n =
    ground (arith, length-le-print_onto base fuel (n / base) (print_digit (n % base) ∷ []))

-- A printed number has a first digit, so it is a token.
pub print_ℕ-ne_nil : (base n : ℕ) → print_ℕ base n ≢ []
unfolding print_ℕ
print_ℕ-ne_nil base n e = absurd (omega (arith, print_onto_pos base 32 n, ap length e))
