-- ===== src/Base/Bytes.antt =====
-- Bytes put side by side by `|` and `<<`.
use Prim.Native.Nat.{ℕ, zero, suc, ◌+◌, ◌*◌, ◌/◌, ◌^◌, ◌<◌, max, bit_or, bit_or-bitwise}
use mathlib.Core.Path.{◌≡◌, sym, ap, ◌∙◌}
use native.Mathlib.Omega.{arith}
use native.Mathlib.Nat.{pow-suc, mul_assoc}
use switcher_c.Base.Bits.{bit, bit-bit_or, bit-zero, eq_of_bits}

lt_pow : (x : ℕ) → x < 2 ^ x
lt_pow zero = omega arith
lt_pow (suc x) = omega (arith, pow-suc 2 x, lt_pow x)

eq_of_all_bits : (x y : ℕ) → ((k : ℕ) → bit k x ≡ bit k y) → x ≡ y
eq_of_all_bits x y h =
    eq_of_bits (x + y) x y (omega (arith, lt_pow (x + y))) (omega (arith, lt_pow (x + y))) h

-- A number below `2 ^ n` and one above it share no digit.
bit-add : (n k a b : ℕ) → a < 2 ^ n → bit k (a + b * 2 ^ n) ≡ max (bit k a) (bit k (b * 2 ^ n))
unfolding bit
bit-add zero k a b h =
    let low : a ≡ 0 = omega arith in
    let same : b * 1 ≡ 0 + b * 1 = omega arith in
    rw low (omega (arith, bit-zero k, ap (bit k) same))
bit-add (suc n) zero a b h =
    let double : b * 2 ^ suc n ≡ b * 2 ^ n * 2 =
      ap (λ (t : ℕ). b * t) (pow-suc 2 n) ∙ sym (mul_assoc b (2 ^ n) 2) in
    omega arith
bit-add (suc n) (suc k) a b h =
    let double : b * 2 ^ suc n ≡ b * 2 ^ n * 2 =
      ap (λ (t : ℕ). b * t) (pow-suc 2 n) ∙ sym (mul_assoc b (2 ^ n) 2) in
    let half : b * 2 ^ suc n / 2 ≡ b * 2 ^ n = omega arith in
    let both : (a + b * 2 ^ suc n) / 2 ≡ a / 2 + b * 2 ^ n = omega arith in
    ap (bit k) both
    ∙ bit-add n k (a / 2) b (omega (arith, pow-suc 2 n))
    ∙ ap (λ (t : ℕ). max (bit k (a / 2)) (bit k t)) (sym half)

or_bytes : (a b : ℕ) → a < 256 → bit_or a (b * 256) ≡ a + b * 256
or_bytes a b h =
    eq_of_all_bits (bit_or a (b * 256)) (a + b * 256)
      (λ k. bit-bit_or a (b * 256) k ∙ sym (bit-add 8 k a b h))

-- The same with the 0 that the sum starts from.
pub or_bytes-zero : (a b : ℕ) → a < 256 → bit_or (bit_or 0 a) (b * 256) ≡ a + b * 256
or_bytes-zero a b h = ap (λ (t : ℕ). bit_or t (b * 256)) (bit_or-bitwise 0 a) ∙ or_bytes a b h
