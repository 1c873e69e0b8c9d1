-- ===== src/IoCore/SubDevice.antt =====
-- src/io.c: the bit arithmetic of a sub-device, digit by digit.
use switcher_c.Base.{ℕ, ◌-◌, ◌/◌, ◌^◌, ◌<◌, ◌≡◌, sym, ◌∙◌, arith, ◌==◌, if◌then◌else◌}
use switcher_c.Base.Bits.{
  bit, bit-lt, bit-bit_or, bit-bit_and, bit_pow, bit_complement, bit_shift, bit_and-one, pow-lt,
}
use switcher_c.Base.Int.{u32_mod}
use switcher_c.IoCore.{set_sub_dev, get_sub_dev}

-- The written value has the requested state at the sub-device's digit, and the other digits of
-- the value that was read.
pub set_sub_dev-bit :
    (requested i value k : ℕ)
    → i < 32
    → k < 32
    → bit k (set_sub_dev requested (2 ^ i) value)
      ≡ (if i == k then (if requested == 0 then 0 else 1) else bit k value)
unfolding set_sub_dev
set_sub_dev-bit requested i value k hi hk = ground (
  arith,
  bit-bit_or value (2 ^ i) k,
  bit-bit_and value (u32_mod - 1 - 2 ^ i) k,
  bit_pow i k,
  bit-lt k value,
  bit_complement 32 k (2 ^ i) (pow-lt i 32 hi) hk,
)

pub get_sub_dev-bit : (i value : ℕ) → get_sub_dev i value ≡ bit i value
unfolding get_sub_dev
get_sub_dev-bit i value = bit_and-one (value / 2 ^ i) ∙ sym (bit_shift i value)
