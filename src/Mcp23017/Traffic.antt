-- ===== src/Mcp23017/Traffic.antt =====
-- src/mcp23017.c: the calls that `read` and `write` make on a chip that acknowledges, in their
-- order, and the two bytes that the 16 digits of a value travel in.
use Prim.Native.Nat.{bit_and}
use switcher_c.Base.{
  if◌then◌else◌, Option, ℕ, ◌≡◌, ◌∙◌, refl, ap, some, ◌∷◌, ◌+◌, ◌*◌, ◌/◌, ◌%◌, ◌<◌, false, arith,
}
use switcher_c.Base.Bits.{and_low_byte, and_high_byte}
use switcher_c.Base.Bytes.{or_bytes-zero}
use switcher_c.Base.Int.{to_unsigned, ℤ, pos, ltb_ℤ, u8_mod, u16_mod}
use switcher_c.Config.{
  IoBus, IoDev, Mcp23017IoState, mcp23017_none, mcp23017_read, mcp23017_write, Mcp23017Data,
}
use switcher_c.Driver.{read_reply}
use switcher_c.I2cLinux.Total.{IsWired}
use switcher_c.I2cLinux.Traffic.{write_byte_data-ok, read_byte_data-ok}
use switcher_c.I2cLinux.{i2c_linux_write_byte_data, i2c_linux_read_byte_data}
use switcher_c.Mcp23017.{
  is_state, iodira, iodirb, gpioa, gpiob, olata, olatb, direction, configure_ports, configure_io,
  ensure_state, write_latches, write, read_ports, read,
}
use switcher_c.World.{Event, Log, Env, World, ErrorCb, ok, pure, deref, and_then}

-- The kernel accepts every address, and the chip acknowledges every write of a register.
pub record Acks (env : Env) : Type 0 where
  pub address_ack : (l : Log) (fh : ℤ) (a : ℕ) → env.ret l (Event.set_slave fh a) ≡ pos 0
  pub write_ack :
      (l : Log) (fh : ℤ) (r v : ℕ) → env.ret l (Event.smbus_write_byte_data fh r v) ≡ pos 0

-- The log after a register is written, and after one is read.
abbrev pub wrote : ℤ → ℕ → ℕ → ℕ → Log → Log
wrote fh address r v l = Event.smbus_write_byte_data fh r v ∷ Event.set_slave fh address ∷ l

abbrev pub asked : ℤ → ℕ → ℕ → Log → Log
asked fh address r l = Event.smbus_read_byte_data fh r ∷ Event.set_slave fh address ∷ l

-- The direction registers, written unless the chip is known to have the direction.
abbrev pub directed : ℤ → ℕ → Mcp23017IoState → Mcp23017IoState → Log → Log
directed fh address mcp23017_write mcp23017_write l = l
directed fh address mcp23017_read mcp23017_read l = l
directed fh address mcp23017_none _ l = l
directed fh address desired _ l =
    wrote fh address iodirb (direction desired) (wrote fh address iodira (direction desired) l)

-- The device with the driver's direction set.
abbrev pub with_state : IoDev → Mcp23017IoState → IoDev
with_state dev s = record dev { dev_data = some (record { io_state = s }) }

module _ (bus : IoBus) (ce : ErrorCb) (env : Env) (acks : Acks env) where
  module _ (dev : IoDev) (wired : IsWired bus.bus_data dev.dev_bus_data) where
    open wired use {bus_block, dev_block}

    write_register :
        (w : World) (r v : ℕ)
        → i2c_linux_write_byte_data bus dev r v ce env w
          ≡ ok (pos 0) (record w { log = wrote bus_block.fh dev_block.address r v w.log })
    write_register w r v =
        let select = Event.set_slave bus_block.fh dev_block.address in
        let t : ltb_ℤ (env.ret w.log select) (pos 0) ≡ false =
          rw (acks.address_ack w.log bus_block.fh dev_block.address) refl in
        write_byte_data-ok bus dev wired ce env w t r v
        ∙ rw (acks.write_ack (select ∷ w.log) bus_block.fh r v)

    configure_ports-Acks :
        (w : World) (desired : Mcp23017IoState)
        → configure_ports bus dev desired ce env w
          ≡ ok
              (record { io_state = desired })
              (record w {
                log =
                    wrote bus_block.fh dev_block.address iodirb
                      (direction desired)
                      (wrote bus_block.fh dev_block.address iodira (direction desired) w.log);
              })
    unfolding configure_ports
    configure_ports-Acks w desired =
        rw (write_register w iodira (direction desired))
          (rw (write_register _ iodirb (direction desired)))

    choose-Acks :
        (w : World) (desired now : Mcp23017IoState)
        → (if is_state now desired
              then pure (record { io_state = now })
              else configure_io bus dev desired ce)
            env w
          ≡ ok
              (record { io_state = desired })
              (record w { log = directed bus_block.fh dev_block.address desired now w.log })
    unfolding configure_io
    choose-Acks w mcp23017_none mcp23017_none = refl
    choose-Acks w mcp23017_none mcp23017_read = refl
    choose-Acks w mcp23017_none mcp23017_write = refl
    choose-Acks w mcp23017_read mcp23017_none = configure_ports-Acks w mcp23017_read
    choose-Acks w mcp23017_read mcp23017_read = refl
    choose-Acks w mcp23017_read mcp23017_write = configure_ports-Acks w mcp23017_read
    choose-Acks w mcp23017_write mcp23017_none = configure_ports-Acks w mcp23017_write
    choose-Acks w mcp23017_write mcp23017_read = configure_ports-Acks w mcp23017_write
    choose-Acks w mcp23017_write mcp23017_write = refl

    ensure_state-Acks :
        (w : World) (desired : Mcp23017IoState) {dev_data : Mcp23017Data}
        → dev.dev_data ≡ some dev_data
        → ensure_state bus dev desired ce env w
          ≡ ok
              (record { io_state = desired })
              (record w {
                log = directed bus_block.fh dev_block.address desired dev_data.io_state w.log;
              })
    unfolding ensure_state
    ensure_state-Acks w desired {dev_data} has =
        ap
          (λ (o : Option Mcp23017Data). and_then (deref o env w) (λ a.
            (if is_state a.io_state desired then pure a else configure_io bus dev desired ce) env))
          has
        ∙ choose-Acks w desired dev_data.io_state

    write_latches-Acks :
        (w : World) (states : ℕ)
        → states < u16_mod
        → write_latches bus dev states ce env w
          ≡ ok (pos 1) (record w {
            log =
                wrote bus_block.fh dev_block.address olatb
                  (states / 256)
                  (wrote bus_block.fh dev_block.address olata (states % 256) w.log);
          })
    unfolding write_latches
    write_latches-Acks w states h =
        let low : bit_and (states % u8_mod) 0x00FF ≡ states % 256 =
          omega (arith, and_low_byte (states % u8_mod)) in
        let high : bit_and states 0xFF00 / 256 % u8_mod ≡ states / 256 =
          omega (arith, and_high_byte states) in
        rw (low, high)
          (rw (write_register w olata (states % 256)) (rw (write_register _ olatb (states / 256))))

    read_register :
        (w : World) (r v a : ℕ)
        → a < u8_mod
        → env.ret
            (Event.set_slave bus_block.fh dev_block.address ∷ w.log)
            (Event.smbus_read_byte_data bus_block.fh r)
          ≡ pos a
        → i2c_linux_read_byte_data bus dev r v ce env w
          ≡ ok (pos 0, a) (record w { log = asked bus_block.fh dev_block.address r w.log })
    read_register w r v a h e =
        let select = Event.set_slave bus_block.fh dev_block.address in
        let t : ltb_ℤ (env.ret w.log select) (pos 0) ≡ false =
          rw (acks.address_ack w.log bus_block.fh dev_block.address) refl in
        let byte : to_unsigned u8_mod (pos a) ≡ a = ground arith in
        let sign : ltb_ℤ (pos a) (pos 0) ≡ false = ground arith in
        read_byte_data-ok bus dev wired ce env w t v r e ∙ rw (sign, byte)

  module _ (dev : IoDev) (wired : IsWired bus.bus_data dev.dev_bus_data) {dev_data : Mcp23017Data}
      (has : dev.dev_data ≡ some dev_data) (w : World) (value : ℕ) where
    open wired use {bus_block, dev_block}

    -- A write to an MCP23017 that is wired and has its data, where the kernel accepts every
    -- address and the chip acknowledges every register write, returns 1, remembers the direction
    -- as write, and makes these calls: the two direction registers set to outputs unless they are
    -- known to be, then latch A with the low byte of the value and latch B with the next one.
    pub write-Acks :
        write bus dev value ce env w
        ≡ ok
            (pos 1, with_state dev mcp23017_write)
            (record w {
              log = wrote bus_block.fh dev_block.address olatb (value / 256 % 256) (
                  wrote bus_block.fh dev_block.address olata (value % 256) (
                    directed bus_block.fh dev_block.address mcp23017_write dev_data.io_state
                      w.log));
            })
    unfolding write
    write-Acks =
        let low : value % u16_mod % 256 ≡ value % 256 = omega arith in
        let high : value % u16_mod / 256 ≡ value / 256 % 256 = omega arith in
        rw (ensure_state-Acks dev wired w mcp23017_write has) (
          rw
            (write_latches-Acks (with_state dev mcp23017_write) wired _ (value % u16_mod)
              (omega arith))
            (rw (low, high)))

    module _ {a b : ℕ} (a_byte : a < u8_mod) (b_byte : b < u8_mod)
        (port_a : let l =
            directed bus_block.fh dev_block.address mcp23017_read dev_data.io_state w.log in
          env.ret
            (Event.set_slave bus_block.fh dev_block.address ∷ l)
            (Event.smbus_read_byte_data bus_block.fh gpioa)
          ≡ pos a)
        (port_b : let l =
            directed bus_block.fh dev_block.address mcp23017_read dev_data.io_state w.log in
          env.ret
            (Event.set_slave bus_block.fh dev_block.address
              ∷ asked bus_block.fh dev_block.address gpioa l)
            (Event.smbus_read_byte_data bus_block.fh gpiob)
          ≡ pos b) where
      -- A read of an MCP23017 that is wired and has its data, where the kernel accepts every
      -- address, the chip acknowledges every register write, and its ports read the bytes `a` and
      -- `b`, returns 1 with the value `a + 256 b`, remembers the direction as read, and makes
      -- these calls: the two direction registers set to inputs unless they are known to be, then
      -- both ports.
      pub read-Acks :
          read bus dev value ce env w
          ≡ ok (read_reply (pos 1) (a + b * 256) (with_state dev mcp23017_read)) (record w {
            log = asked bus_block.fh dev_block.address gpiob (
                asked bus_block.fh dev_block.address gpioa
                  (directed bus_block.fh dev_block.address mcp23017_read dev_data.io_state w.log));
          })
      unfolding read read_ports
      read-Acks =
          let l = directed bus_block.fh dev_block.address mcp23017_read dev_data.io_state w.log in
          let w1 = record w { log = l } in
          let w2 = record w { log = asked bus_block.fh dev_block.address gpioa l } in
          let dev' = with_state dev mcp23017_read in
          rw (ensure_state-Acks dev wired w mcp23017_read has) (
            rw (read_register dev' wired w1 gpioa 0 a a_byte port_a) (
              rw (read_register dev' wired w2 gpiob 0 b b_byte port_b)
                (rw (or_bytes-zero a b a_byte))))
