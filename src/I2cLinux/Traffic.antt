-- ===== src/I2cLinux/Traffic.antt =====
-- src/io_i2c_linux.c: the calls that a transfer makes, in their order, and what it takes from the
-- answers.
use switcher_c.Base.{some, true, ◌++◌, ℕ, ◌≡◌, ◌∷◌, false, if◌then◌else◌}
use switcher_c.Base.Int.{ℤ, pos, ltb_ℤ, minus_one, to_unsigned, u8_mod}
use switcher_c.Base.Lists.{take}
use switcher_c.Base.Text.{Bytes, text}
use switcher_c.Config.{IoBus, IoDev}
use switcher_c.I2cLinux.{
  i2c_linux_set_addr, i2c_linux_write_byte, i2c_linux_write_byte_data, i2c_linux_read_byte_data,
  i2c_linux_read_byte,
}
use switcher_c.I2cLinux.Total.{IsWired}
use switcher_c.World.Returns.{and_then_assoc}
use switcher_c.World.{Event, Log, Env, World, ErrorCb, Io, ok, and_then}

module _ (bus : IoBus) (dev : IoDev) (wired : IsWired bus.bus_data dev.dev_bus_data) (ce : ErrorCb)
    (env : Env) (w : World) where
  open wired use {bus_block, dev_block, bus_has, dev_has}

  -- The calls so far, with the one that selects the device.
  abbrev pub selected : Log
  selected = Event.set_slave bus_block.fh dev_block.address ∷ w.log

  -- The kernel takes the device's address.
  abbrev pub AddressAccepted : Type 0
  AddressAccepted =
      ltb_ℤ (env.ret w.log (Event.set_slave bus_block.fh dev_block.address)) (pos 0) ≡ false

  module _ (accepted : AddressAccepted) where
    set_addr-ok : i2c_linux_set_addr bus dev ce env w ≡ ok (pos 0) (record w { log = selected })
    unfolding i2c_linux_set_addr
    set_addr-ok = rw (bus_has, dev_has) (rw accepted)

    pub write_byte_data-ok :
        (command value : ℕ)
        → i2c_linux_write_byte_data bus dev command value ce env w
          ≡ ok
              (env.ret selected (Event.smbus_write_byte_data bus_block.fh command value))
              (record w { log = Event.smbus_write_byte_data bus_block.fh command value ∷ selected })
    unfolding i2c_linux_write_byte_data
    write_byte_data-ok command value = rw set_addr-ok (rw bus_has)

    pub write_byte-ok :
        (value : ℕ)
        → i2c_linux_write_byte bus dev value ce env w
          ≡ ok
              (env.ret selected (Event.smbus_write_byte bus_block.fh value))
              (record w { log = Event.smbus_write_byte bus_block.fh value ∷ selected })
    unfolding i2c_linux_write_byte
    write_byte-ok value = rw set_addr-ok (rw bus_has)

    module _ (value : ℕ) {reply : ℤ} where
      pub read_byte-ok :
          env.ret selected (Event.smbus_read_byte bus_block.fh) ≡ reply
          → i2c_linux_read_byte bus dev value ce env w
            ≡ ok
                (if ltb_ℤ reply (pos 0)
                  then (minus_one, value)
                  else (pos 0, to_unsigned u8_mod reply))
                (record w { log = Event.smbus_read_byte bus_block.fh ∷ selected })
      unfolding i2c_linux_read_byte
      read_byte-ok e = rw set_addr-ok (rw bus_has (rw e))

      -- A reply that is not negative is cut to a byte; a negative one leaves the value as it was.
      pub read_byte_data-ok :
          (command : ℕ)
          → env.ret selected (Event.smbus_read_byte_data bus_block.fh command) ≡ reply
          → i2c_linux_read_byte_data bus dev command value ce env w
            ≡ ok
                (if ltb_ℤ reply (pos 0)
                  then (minus_one, value)
                  else (pos 0, to_unsigned u8_mod reply))
                (record w { log = Event.smbus_read_byte_data bus_block.fh command ∷ selected })
      unfolding i2c_linux_read_byte_data
      read_byte_data-ok command e = rw set_addr-ok (rw bus_has (rw e))

  -- If the kernel refuses the address of a device that is wired, the callback gets the reason,
  -- cut to 255 bytes, and the byte is written all the same, to whatever device was selected
  -- before.
  pub write_byte_data-refused :
      (command value : ℕ) (f : Bytes → Io (Unit {0}))
      → ltb_ℤ (env.ret w.log (Event.set_slave bus_block.fh dev_block.address)) (pos 0) ≡ true
      → let msg = take 255 (text "ioctl error: " ++ env.strerror selected) in
        i2c_linux_write_byte_data bus dev command value (some f) env w
        ≡ and_then (f msg env (record w { log = selected })) (λ _ w'.
          ok
            (env.ret w'.log (Event.smbus_write_byte_data bus_block.fh command value))
            (record w' { log = Event.smbus_write_byte_data bus_block.fh command value ∷ w'.log }))
  unfolding i2c_linux_write_byte_data i2c_linux_set_addr
  write_byte_data-refused command value f refused =
      rw (bus_has, dev_has) (rw refused (and_then_assoc (f _ env _) _ _))
