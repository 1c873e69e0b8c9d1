-- ===== src/Pfio/Start.antt =====
-- src/pfio.c: `pfio_init` where every call succeeds.
use switcher_c.Base.{
  ℕ, zero, suc, ◌+◌, ◌<◌, ◌≤◌, ◌%◌, ◌^◌, ◌≡◌, ◌∙◌, refl, ap, arith, ◌∷◌, false, some, lt→ltb,
}
use Prim.Native.Nat.{◌-◌, bit_and, bit_and-bitwise}
use switcher_c.Base.Int.{ℤ, pos, ltb_ℤ, eqb_ℤ, u8_mod}
use switcher_c.Pfio.Latch.{latch, IsBoard}
use switcher_c.Pfio.Pins.{transfer-Sends}
use switcher_c.Pfio.{
  spi_path, spi_write, spi_read, read_output, write_output, spi_read_cmd, spi_write_cmd,
  output_port, get_pin_bit_mask, new_pin_values, digital_write, clear_pins, setup_ports,
  read_settings, init, iocon, iodira, iodirb, gppub,
}
use switcher_c.World.{Object, Event, Log, Env, World, Spi}
use switcher_c.World.Returns.{Returns, returns, bind}

-- There is memory for the settings, and the SPI device can be opened and asked.
pub record OpensSpi (env : Env) : Type 0 where
  pub granted : (l : Log) → eqb_ℤ (env.ret l (Event.malloc Object.spi_object)) (pos 0) ≡ false
  pub opened : (l : Log) → ltb_ℤ (env.ret l (Event.open_device spi_path)) (pos 0) ≡ false
  pub mode_read : (l : Log) (fd : ℤ) → ltb_ℤ (env.ret l (Event.spi_rd_mode fd)) (pos 0) ≡ false
  pub bits_read :
      (l : Log) (fd : ℤ) → ltb_ℤ (env.ret l (Event.spi_rd_bits_per_word fd)) (pos 0) ≡ false
  pub speed_read :
      (l : Log) (fd : ℤ) → ltb_ℤ (env.ret l (Event.spi_rd_max_speed fd)) (pos 0) ≡ false

bit_and-of_zero : (a b : ℕ) → a ≡ 0 → bit_and a b % u8_mod ≡ 0
bit_and-of_zero a b e =
    ap (λ (t : ℕ). bit_and t b % u8_mod) e ∙ ap (λ (t : ℕ). t % u8_mod) (bit_and-bitwise 0 b)

-- The SPI device is open, and the outputs are all 0.
abbrev pub AllOff : Spi → World → Type 0
AllOff spi w = (w.spi ≡ some spi) × (latch w.log ≡ 0)

module _ (env : Env) (board : IsBoard env) (spi : Spi) where
  digital_write-off :
      (n : ℕ) (w : World)
      → n < 32
      → AllOff spi w
      → Returns (λ _ w'. AllOff spi w') (digital_write n 0 env w)
  unfolding digital_write read_output write_output spi_read spi_write get_pin_bit_mask
      new_pin_values
  digital_write-off n w lt (opened, off) =
      let ask = Event.spi_message spi.fd spi_read_cmd output_port 0xff in
      let w' = record w { log = ask ∷ w.log } in
      let old = env.out w.log ask % u8_mod in
      let v = new_pin_values old (2 ^ n % u8_mod) 0 in
      let zero_old : old ≡ 0 = board.latched w.log spi.fd ∙ off in
      rw (digital_write, lt→ltb n 32 lt)
        (rw (transfer-Sends env board.sends w spi_read_cmd output_port 0xff opened) (
          rw (transfer-Sends env board.sends w' spi_write_cmd output_port v opened)
            (returns (opened, bit_and-of_zero old (255 - 2 ^ n % u8_mod) zero_old))))

  clear_pins-off :
      (n i : ℕ) (w : World)
      → n + i ≤ 32
      → AllOff spi w
      → Returns (λ _ w'. AllOff spi w') (clear_pins n i env w)
  unfolding clear_pins
  clear_pins-off zero i w le off = returns off
  clear_pins-off (suc n) i w le off =
      bind (digital_write-off i w (omega arith) off)
        λ _ w' off'. clear_pins-off n (i + 1) w' (omega arith) off'

  -- A write to another port than the outputs' leaves the latch.
  spi_write-Returns :
      (port value : ℕ) (w : World)
      → w.spi ≡ some spi
      → Returns
          (λ _ w'.
            (w'.spi ≡ some spi)
            × (w'.log ≡ Event.spi_message spi.fd spi_write_cmd port value ∷ w.log))
          (spi_write port value env w)
  unfolding spi_write
  spi_write-Returns port value w opened =
      rw (transfer-Sends env board.sends w spi_write_cmd port value opened) (returns (opened, refl))

  setup_ports-off :
      (w : World) → w.spi ≡ some spi → Returns (λ _ w'. AllOff spi w') (setup_ports env w)
  unfolding setup_ports
  setup_ports-off w o = bind (spi_write-Returns iocon 8 w o) λ _ w1 (o1, _).
      bind (spi_write-Returns output_port 0x00 w1 o1) λ _ w2 (o2, l2).
        bind (spi_write-Returns iodira 0 w2 o2) λ _ w3 (o3, l3).
          bind (spi_write-Returns iodirb 0xFF w3 o3) λ _ w4 (o4, l4).
            bind (spi_write-Returns gppub 0xFF w4 o4) λ _ w5 (o5, l5).
              clear_pins-off 8 1 w5 (omega arith)
                (o5, ap latch l5 ∙ ap latch l4 ∙ ap latch l3 ∙ ap latch l2)

-- The settings are read into the block, and the ports set up.
read_settings-off :
    (env : Env) (s : Spi) (w : World)
    → IsBoard env
    → OpensSpi env
    → Returns (λ rc w'. (rc ≡ pos 0) × ((spi : Spi) × AllOff spi w')) (read_settings s env w)
unfolding read_settings
read_settings-off env s w board opens =
    let l = w.log in
    let ask_mode = Event.spi_rd_mode s.fd in
    let ask_bits = Event.spi_rd_bits_per_word s.fd in
    let ask_speed = Event.spi_rd_max_speed s.fd in
    rw (opens.mode_read l s.fd) (
      rw (opens.bits_read (ask_mode ∷ l) s.fd) (
        rw (opens.speed_read (ask_bits ∷ ask_mode ∷ l) s.fd)
          (bind (setup_ports-off env board _ _ refl) λ _ w' off. returns (refl, (_, off)))))

-- With memory for the settings, an SPI device that can be opened and asked, and a board that carries
-- every transfer out, `pfio_init` returns 0 without undefined behaviour, with the SPI device open
-- and 0 in the latch of the outputs.
pub init-AllOff :
    (env : Env) (w : World)
    → IsBoard env
    → OpensSpi env
    → Returns (λ rc w'. (rc ≡ pos 0) × ((spi : Spi) × AllOff spi w')) (init env w)
unfolding init
init-AllOff env w board opens =
    rw (init, opens.granted w.log)
      (rw (opens.opened (Event.malloc Object.spi_object ∷ w.log))
        (read_settings-off env _ _ board opens))
