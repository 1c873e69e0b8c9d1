-- ===== src/Pfio/Pins.antt =====
-- src/pfio.c: pins, masks and the lowest set pin, and what a write of one pin sends.
use switcher_c.Base.{
  ℕ, zero, suc, ◌+◌, ◌-◌, ◌*◌, ◌/◌, ◌%◌, ◌^◌, ◌<◌, ◌≡◌, ◌∙◌, sym, ap, arith, true, false, some, ltb,
  ◌==◌, if◌then◌else◌, ◌∷◌,
}
use Prim.Native.Nat.{bit_and}
use native.Mathlib.Nat.{pow-suc, mul_assoc}
use switcher_c.Base.Bits.{
  bit, bit-bit_or, bit-bit_and, bit_pow, bit_complement, bit-lt, bit_and-one, pow-lt,
}
use switcher_c.Base.Int.{ℤ, pos, ltb_ℤ, u8_mod}
use switcher_c.Pfio.{
  get_pin_bit_mask, pin_number_loop, get_pin_number, new_pin_values, digital_write, read_output,
  write_output, spi_read, spi_write, spi_transfer, output_port, spi_read_cmd, spi_write_cmd,
}
use switcher_c.World.{Event, Log, Spi, Env, World, ok}

-- The loop from pin `k` on, with a pattern whose lowest set digit is `p`.
pin_number_loop-lowest :
    (fuel q p k : ℕ)
    → p < fuel
    → k + p < 8
    → pin_number_loop fuel ((q * 2 + 1) * 2 ^ p) k ≡ some (k + p)
unfolding pin_number_loop
pin_number_loop-lowest zero q p k h b = absurd (omega arith)
pin_number_loop-lowest (suc fuel) q zero k h b =
    let odd : bit_and ((q * 2 + 1) * 1) 1 ≡ 1 = omega (arith, bit_and-one ((q * 2 + 1) * 1)) in
    let there : k ≡ k + 0 = omega arith in rw odd (ap some there)
pin_number_loop-lowest (suc fuel) q (suc p) k h b =
    let x = (q * 2 + 1) * 2 ^ p in
    let double : (q * 2 + 1) * 2 ^ suc p ≡ x * 2 =
      ap (λ (t : ℕ). (q * 2 + 1) * t) (pow-suc 2 p) ∙ sym (mul_assoc (q * 2 + 1) (2 ^ p) 2) in
    let even : bit_and (x * 2) 1 ≡ 0 = omega (arith, bit_and-one (x * 2)) in
    let half : x * 2 / 2 ≡ x = omega arith in
    let more : ltb 7 (k + 1) ≡ false = ground arith in
    let there : k + 1 + p ≡ k + suc p = omega arith in
    rw double (
      rw (even, more, half)
        (pin_number_loop-lowest fuel q p (k + 1) (omega arith) (omega arith) ∙ ap some there))

-- The pin number of a pattern is the position of its lowest set digit: of an odd multiple of 2^p,
-- for `p` below 8, it is `p`. The loop ends within 8 rounds.
pub get_pin_number-lowest : (q p : ℕ) → p < 8 → get_pin_number ((q * 2 + 1) * 2 ^ p) ≡ some p
unfolding get_pin_number
get_pin_number-lowest q p h =
    let there : 0 + p ≡ p = omega arith in
    pin_number_loop-lowest 8 q p 0 h (omega arith) ∙ ap some there

-- The mask of a pin below 8 is its one digit.
mask-digit : (n : ℕ) → n < 8 → get_pin_bit_mask n ≡ some (2 ^ n)
unfolding get_pin_bit_mask
mask-digit n h =
    let small : 2 ^ n < 256 = pow-lt n 8 h in
    let whole : 2 ^ n % u8_mod ≡ 2 ^ n = omega arith in
    let shifts : ltb n 32 ≡ true = ground arith in rw shifts (ap some whole)

-- The new value has the requested state at the pin's digit, and the old one at the others.
new_pin_values-bit :
    (old n value k : ℕ)
    → n < 8
    → k < 8
    → bit k (new_pin_values old (2 ^ n) value)
      ≡ (if n == k then (if value == 0 then 0 else 1) else bit k old)
unfolding new_pin_values
new_pin_values-bit old n value k hn hk = ground (
  arith,
  bit-bit_or old (2 ^ n) k,
  bit-bit_and old (255 - 2 ^ n) k,
  bit_pow n k,
  bit-lt k old,
  bit_complement 8 k (2 ^ n) (pow-lt n 8 hn) hk,
)

-- Every SPI transfer is carried out.
pub record Sends (env : Env) : Type 0 where
  pub sent :
      (l : Log) (fd : ℤ) (c p v : ℕ)
      → ltb_ℤ (env.ret l (Event.spi_message fd c p v)) (pos 1) ≡ false

module _ (env : Env) (sends : Sends env) {spi : Spi} where
  pub transfer-Sends :
      (w : World) (cmd port value : ℕ)
      → w.spi ≡ some spi
      → spi_transfer cmd port value env w
        ≡ ok
            (env.out w.log (Event.spi_message spi.fd cmd port value) % u8_mod)
            (record w { log = Event.spi_message spi.fd cmd port value ∷ w.log })
  unfolding spi_transfer
  transfer-Sends w cmd port value opened = rw (opened, sends.sent w.log spi.fd cmd port value)

  -- A write of a pin below 8, with the SPI device open and every transfer carried out, is two
  -- transfers: it reads the output port, and writes to it a value whose digit at the pin is set
  -- exactly when the given value is not 0, and whose other digits below 8 are as read.
  pub digital_write-bit :
      (w : World) (n value k : ℕ)
      → w.spi ≡ some spi
      → n < 8
      → k < 8
      → let ask = Event.spi_message spi.fd spi_read_cmd output_port 0xff in
        let old = env.out w.log ask % u8_mod in
        let v = new_pin_values old (2 ^ n) value in
        (digital_write n value env w
          ≡ ok tt (record w {
            log = Event.spi_message spi.fd spi_write_cmd output_port v ∷ ask ∷ w.log;
          }))
        × (bit k v ≡ (if n == k then (if value == 0 then 0 else 1) else bit k old))
  unfolding digital_write read_output write_output spi_read spi_write
  digital_write-bit w n value k opened hn hk =
      let ask = Event.spi_message spi.fd spi_read_cmd output_port 0xff in
      let old = env.out w.log ask % u8_mod in
      let w' = record w { log = ask ∷ w.log } in
      let v = new_pin_values old (2 ^ n) value in
      (
        rw (digital_write, mask-digit n hn)
            (rw (transfer-Sends w spi_read_cmd output_port 0xff opened)
              (rw (transfer-Sends w' spi_write_cmd output_port v opened))),
        new_pin_values-bit old n value k hn hk,
      )
