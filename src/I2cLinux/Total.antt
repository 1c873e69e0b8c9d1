-- ===== src/I2cLinux/Total.antt =====
-- src/io_i2c_linux.c: the transfers on a bus and a device that have their data.
use switcher_c.Base.{ℕ, ◌≡◌, refl, inl, inr, Option, some, Bool-cases}
use switcher_c.Base.Int.{pos, ltb_ℤ}
use switcher_c.Base.Text.{Bytes}
use switcher_c.Config.{IoBus, IoDev, I2cLinuxBusData, I2cLinuxDevData}
use switcher_c.I2cLinux.{
  i2c_linux_set_addr, i2c_linux_write_byte, i2c_linux_read_byte, i2c_linux_write_byte_data,
  i2c_linux_read_byte_data,
}
use switcher_c.IoCore.Contract.{IsQuiet, KeepsSpi}
use switcher_c.World.{Event, Env, World, Io}
use switcher_c.World.Returns.{Returns, returns, bind}

-- The bus and the device have the blocks that the transfers use.
pub record IsWired (b : Option I2cLinuxBusData) (d : Option I2cLinuxDevData) : Type 0 where
  pub bus_block : I2cLinuxBusData
  pub dev_block : I2cLinuxDevData
  pub bus_has : b ≡ some bus_block
  pub dev_has : d ≡ some dev_block

module _ (bus : IoBus) (dev : IoDev) (wired : IsWired bus.bus_data dev.dev_bus_data)
    (f : Bytes → Io (Unit {0})) (quiet : IsQuiet f) (env : Env) (w : World) where
  open wired use {bus_block, dev_block, bus_has, dev_has}

  set_addr-Returns : Returns (KeepsSpi w) (i2c_linux_set_addr bus dev (some f) env w)
  unfolding i2c_linux_set_addr
  set_addr-Returns =
      rw (bus_has, dev_has)
        (elim (Bool-cases
          (ltb_ℤ (env.ret w.log (Event.set_slave bus_block.fh dev_block.address)) (pos 0))) [
            | inl failed ↦ rw failed (bind (quiet _ env _) λ _ w' p. returns p)
            | inr set ↦ rw set (returns refl)
          ])

  pub write_byte-Returns :
      (value : ℕ) → Returns (KeepsSpi w) (i2c_linux_write_byte bus dev value (some f) env w)
  unfolding i2c_linux_write_byte
  write_byte-Returns value = bind set_addr-Returns λ _ w' p. rw bus_has (returns p)

  pub read_byte-Returns :
      (value : ℕ) → Returns (KeepsSpi w) (i2c_linux_read_byte bus dev value (some f) env w)
  unfolding i2c_linux_read_byte
  read_byte-Returns value = bind set_addr-Returns λ _ w' p. rw bus_has (returns p)

  pub write_byte_data-Returns :
      (command value : ℕ)
      → Returns (KeepsSpi w) (i2c_linux_write_byte_data bus dev command value (some f) env w)
  unfolding i2c_linux_write_byte_data
  write_byte_data-Returns command value = bind set_addr-Returns λ _ w' p. rw bus_has (returns p)

  pub read_byte_data-Returns :
      (command value : ℕ)
      → Returns (KeepsSpi w) (i2c_linux_read_byte_data bus dev command value (some f) env w)
  unfolding i2c_linux_read_byte_data
  read_byte_data-Returns command value = bind set_addr-Returns λ _ w' p. rw bus_has (returns p)
