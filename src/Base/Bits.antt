-- ===== src/Base/Bits.antt =====
-- The binary digits of a number, and what the native bit operations do to each of them.
use Prim.Native.Nat.{
  ℕ, zero, suc, ◌+◌, ◌-◌, ◌*◌, ◌/◌, ◌%◌, ◌^◌, ◌≤◌, ◌<◌, min, max, digits, bit_and, bit_or,
  bit_and-bitwise, bit_or-bitwise,
}
use mathlib.Core.Path.{◌≡◌, refl, sym, ap, ◌∙◌}
use native.Mathlib.Omega.{arith}
use native.Mathlib.Nat.{pow-suc, mul_comm, div-div-eq-div-mul}
use switcher_c.Base.Tests.{◌==◌, if◌then◌else◌}

-- Digit `k` of a number, 0 or 1.
unfoldable pub bit : ℕ → ℕ → ℕ
bit zero x = x % 2
bit (suc k) x = bit k (x / 2)

pub bit-lt : (k x : ℕ) → bit k x < 2
unfolding bit
bit-lt zero x = omega arith
bit-lt (suc k) x = bit-lt k (x / 2)

pub bit-zero : (k : ℕ) → bit k 0 ≡ 0
unfolding bit
bit-zero zero = refl
bit-zero (suc k) = bit-zero k

-- A digit operation `f` that the recursion applies digit by digit, with `z` where `a` has run out.
module _ (z : ℕ → ℕ) (f : ℕ → ℕ → ℕ) (z_law : (k b : ℕ) → bit k (z b) ≡ f 0 (bit k b))
    (f_lt : (x y : ℕ) → x < 2 → y < 2 → f x y < 2) where
  bit-digits : (n a b k : ℕ) → a ≤ n → bit k (digits z f n a b) ≡ f (bit k a) (bit k b)
  unfolding bit
  bit-digits zero zero b k h = rw (bit-zero k) (z_law k b)
  bit-digits (suc n) zero b k h = rw (bit-zero k) (z_law k b)
  bit-digits zero (suc a) b k h = absurd (omega arith)
  bit-digits (suc n) (suc a) b zero h =
      omega (arith, f_lt (suc a % 2) (b % 2) (omega arith) (omega arith))
  bit-digits (suc n) (suc a) b (suc k) h =
      let d = digits z f n (suc a / 2) (b / 2) in
      let low = f (suc a % 2) (b % 2) in
      let small : low < 2 = f_lt (suc a % 2) (b % 2) (omega arith) (omega arith) in
      let half : (d * 2 + low) / 2 ≡ d = omega arith in
      ap (bit k) half ∙ bit-digits n (suc a / 2) (b / 2) k (omega arith)

pub bit-bit_or : (a b k : ℕ) → bit k (bit_or a b) ≡ max (bit k a) (bit k b)
bit-bit_or a b k =
    ap (bit k) (bit_or-bitwise a b)
    ∙ bit-digits (λ y. y) max (λ k b. omega arith) (λ x y p q. omega arith) a a b k (omega arith)

pub bit-bit_and : (a b k : ℕ) → bit k (bit_and a b) ≡ min (bit k a) (bit k b)
bit-bit_and a b k =
    ap (bit k) (bit_and-bitwise a b)
    ∙ bit-digits (λ y. zero) min (λ k b. omega (arith, bit-zero k)) (λ x y p q. omega arith) a a b k
        (omega arith)

pub bit_pow : (i k : ℕ) → bit k (2 ^ i) ≡ (if i == k then 1 else 0)
unfolding bit
bit_pow zero zero = refl
bit_pow zero (suc k) = ground (arith, bit-zero k)
bit_pow (suc i) zero = ground (arith, pow-suc 2 i)
bit_pow (suc i) (suc k) =
    let half : 2 ^ suc i / 2 ≡ 2 ^ i = omega (arith, pow-suc 2 i) in
    ap (bit k) half ∙ bit_pow i k ∙ ground arith

pub pow-lt : (i w : ℕ) → i < w → 2 ^ i < 2 ^ w
pow-lt i zero h = elim h [ ]
pow-lt zero (suc zero) h = omega arith
pow-lt zero (suc (suc w)) h = omega (arith, pow-suc 2 (suc w), pow-lt zero (suc w) (omega arith))
pow-lt (suc i) (suc w) h = omega (arith, pow-suc 2 i, pow-suc 2 w, pow-lt i w (omega arith))

-- The complement within `w` digits.
pub bit_complement : (w k x : ℕ) → x < 2 ^ w → k < w → bit k (2 ^ w - 1 - x) ≡ 1 - bit k x
unfolding bit
bit_complement zero k x h lt = absurd (omega arith)
bit_complement (suc w) zero x h lt = omega (arith, pow-suc 2 w)
bit_complement (suc w) (suc k) x h lt =
    let half : (2 ^ suc w - 1 - x) / 2 ≡ 2 ^ w - 1 - x / 2 = omega (arith, pow-suc 2 w) in
    ap (bit k) half ∙ bit_complement w k (x / 2) (omega (arith, pow-suc 2 w)) (omega arith)

-- The digits past the width of a number are 0.
pub bit-of_lt : (w k x : ℕ) → x < 2 ^ w → w ≤ k → bit k x ≡ 0
unfolding bit
bit-of_lt zero k x h le = ap (bit k) (omega arith) ∙ bit-zero k
bit-of_lt (suc w) zero x h le = absurd (omega arith)
bit-of_lt (suc w) (suc k) x h le = bit-of_lt w k (x / 2) (omega (arith, pow-suc 2 w)) (omega arith)

-- Two numbers with the same digits are one.
pub eq_of_bits : (w x y : ℕ) → x < 2 ^ w → y < 2 ^ w → ((k : ℕ) → bit k x ≡ bit k y) → x ≡ y
unfolding bit
eq_of_bits zero x y p q h = omega arith
eq_of_bits (suc w) x y p q h = omega (
  arith,
  h 0,
  eq_of_bits w (x / 2) (y / 2) (omega (arith, pow-suc 2 w)) (omega (arith, pow-suc 2 w))
      (λ k. h (suc k)),
)

-- A test of the digit, as shift and mask make it.
pub bit_shift : (k x : ℕ) → bit k x ≡ x / 2 ^ k % 2
unfolding bit
bit_shift zero x = omega arith
bit_shift (suc k) x = bit_shift k (x / 2) ∙ div_step
  where
    div_step : x / 2 / 2 ^ k % 2 ≡ x / 2 ^ suc k % 2
    div_step =
        rw (pow-suc 2 k, mul_comm (2 ^ k) 2)
          (ap (λ (t : ℕ). t % 2) (div-div-eq-div-mul x 2 (2 ^ k)))

-- `&` with a mask of consecutive digits, as arithmetic.
abbrev and_digits : ℕ → ℕ → ℕ → ℕ
and_digits n a b = digits (λ y. zero) min n a b

and_digits-fuel : (n m a b : ℕ) → a ≤ n → a ≤ m → and_digits n a b ≡ and_digits m a b
and_digits-fuel zero zero a b p q = refl
and_digits-fuel zero (suc m) zero b p q = refl
and_digits-fuel (suc n) zero zero b p q = refl
and_digits-fuel (suc n) (suc m) zero b p q = refl
and_digits-fuel zero (suc m) (suc a) b p q = absurd (omega arith)
and_digits-fuel (suc n) zero (suc a) b p q = absurd (omega arith)
and_digits-fuel (suc n) (suc m) (suc a) b p q =
    ap (λ (t : ℕ). t * 2 + min (suc a % 2) (b % 2))
      (and_digits-fuel n m (suc a / 2) (b / 2) (omega arith) (omega arith))

and_step : (a b : ℕ) → bit_and a b ≡ bit_and (a / 2) (b / 2) * 2 + min (a % 2) (b % 2)
and_step zero b = omega (arith, bit_and-bitwise 0 b, bit_and-bitwise 0 (b / 2))
and_step (suc a) b = omega (
  arith,
  bit_and-bitwise (suc a) b,
  bit_and-bitwise (suc a / 2) (b / 2),
  and_digits-fuel a (suc a / 2) (suc a / 2) (b / 2) (omega arith) (omega arith),
)

and_digits-zero : (n a : ℕ) → and_digits n a 0 ≡ 0
and_digits-zero zero a = refl
and_digits-zero (suc n) zero = refl
and_digits-zero (suc n) (suc a) = omega (arith, and_digits-zero n (suc a / 2))

bit_and-zero : (a : ℕ) → bit_and a 0 ≡ 0
bit_and-zero a = bit_and-bitwise a 0 ∙ and_digits-zero a a

pub bit_and-one : (a : ℕ) → bit_and a 1 ≡ a % 2
bit_and-one a = omega (arith, and_step a 1, bit_and-zero (a / 2))

and_odd : (a c : ℕ) {b : ℕ} → b ≡ c * 2 + 1 → bit_and a b ≡ bit_and (a / 2) c * 2 + a % 2
and_odd a c {b} h =
    let half : b / 2 ≡ c = omega arith in omega (arith, and_step a b, ap (bit_and (a / 2)) half)

and_even : (a c : ℕ) {b : ℕ} → b ≡ c * 2 → bit_and a b ≡ bit_and (a / 2) c * 2
and_even a c {b} h =
    let half : b / 2 ≡ c = omega arith in omega (arith, and_step a b, ap (bit_and (a / 2)) half)

and_nibble : (a c : ℕ) {b : ℕ} → b ≡ c * 16 + 15 → bit_and a b ≡ bit_and (a / 16) c * 16 + a % 16
and_nibble a c {b} h =
    let q : a / 2 / 2 / 2 / 2 ≡ a / 16 = omega arith in
    omega (
      arith,
      and_odd a (c * 8 + 7) {b = b} (omega arith),
      and_odd (a / 2) (c * 4 + 3) {b = c * 8 + 7} (omega arith),
      and_odd (a / 2 / 2) (c * 2 + 1) {b = c * 4 + 3} (omega arith),
      and_odd (a / 2 / 2 / 2) c {b = c * 2 + 1} refl,
      ap (λ (t : ℕ). bit_and t c) q,
    )

and_skip : (a c : ℕ) {b : ℕ} → b ≡ c * 16 → bit_and a b ≡ bit_and (a / 16) c * 16
and_skip a c {b} h =
    let q : a / 2 / 2 / 2 / 2 ≡ a / 16 = omega arith in
    omega (
      arith,
      and_even a (c * 8) {b = b} (omega arith),
      and_even (a / 2) (c * 4) {b = c * 8} (omega arith),
      and_even (a / 2 / 2) (c * 2) {b = c * 4} (omega arith),
      and_even (a / 2 / 2 / 2) c {b = c * 2} refl,
      ap (λ (t : ℕ). bit_and t c) q,
    )

pub and_low_byte : (a : ℕ) → bit_and a 0xFF ≡ a % 256
and_low_byte a = omega (
  arith,
  and_nibble a 15 {b = 0xFF} refl,
  and_nibble (a / 16) 0 {b = 15} refl,
  bit_and-zero (a / 16 / 16),
)

-- The low byte has the low digits.
pub bit-low_byte : (k a : ℕ) → k < 8 → bit k (a % 256) ≡ bit k a
bit-low_byte k a h =
    let ones : bit k 255 ≡ 1 - bit k 0 = bit_complement 8 k 0 (omega arith) h in
    ap (bit k) (sym (and_low_byte a))
    ∙ bit-bit_and a 0xFF k
    ∙ omega (arith, ones, bit-zero k, bit-lt k a)

pub and_high_byte : (a : ℕ) → bit_and a 0xFF00 ≡ a / 256 % 256 * 256
and_high_byte a =
    let q : a / 16 / 16 ≡ a / 256 = omega arith in
    omega (
      arith,
      and_skip a 0xFF0 {b = 0xFF00} refl,
      and_skip (a / 16) 0xFF {b = 0xFF0} refl,
      and_low_byte (a / 16 / 16),
    )
