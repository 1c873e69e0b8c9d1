-- ===== src/I2cLinux/Quiet.antt =====
-- src/io_i2c_linux.c, src/mcp23017.c and src/pcf8574.c: transfers neither make nor give back a block.
use switcher_c.Base.{ℕ, refl, some, ◌++◌}
use switcher_c.Config.{IoBus, IoDev, Mcp23017IoState, mcp23017_none, mcp23017_read, mcp23017_write}
use switcher_c.Base.Int.{pos, ltb_ℤ, eqb_ℤ, minus_one}
use switcher_c.Base.Lists.{take}
use switcher_c.Base.Text.{Bytes, text}
use switcher_c.I2cLinux.{
  store_byte, i2c_linux_set_addr, i2c_linux_write_byte, i2c_linux_read_byte,
  i2c_linux_write_byte_data, i2c_linux_read_byte_data,
}
use switcher_c.Mcp23017.{
  configure_ports, configure_io, ensure_state, write_latches, read_ports, is_state,
}
use switcher_c.Mcp23017
use switcher_c.Pcf8574
use switcher_c.World.{Object, Event, Io}
use switcher_c.World.Quiet.{
  KeepsBlocks, pure-KeepsBlocks, bind-KeepsBlocks, if-KeepsBlocks, deref-KeepsBlocks,
  call-KeepsBlocks, strerror-KeepsBlocks,
}

module _ (k g : Object → ℕ) (bus : IoBus) (f : Bytes → Io (Unit {0}))
    (quiet : (msg : Bytes) → KeepsBlocks k g (f msg)) where
  module _ (dev : IoDev) where
    set_addr-KeepsBlocks : KeepsBlocks k g (i2c_linux_set_addr bus dev (some f))
    unfolding i2c_linux_set_addr
    set_addr-KeepsBlocks = bind-KeepsBlocks k g (deref-KeepsBlocks k g bus.bus_data) λ b.
        bind-KeepsBlocks k g (deref-KeepsBlocks k g dev.dev_bus_data) λ d.
          bind-KeepsBlocks k g (call-KeepsBlocks k g (Event.set_slave b.fh d.address) refl) λ rc.
            if-KeepsBlocks k g (ltb_ℤ rc (pos 0))
              (bind-KeepsBlocks k g (strerror-KeepsBlocks k g) λ reason.
                bind-KeepsBlocks k g (quiet (take 255 (text "ioctl error: " ++ reason)))
                  λ _. pure-KeepsBlocks k g minus_one)
              (pure-KeepsBlocks k g (pos 0))

    write_byte-KeepsBlocks : (v : ℕ) → KeepsBlocks k g (i2c_linux_write_byte bus dev v (some f))
    unfolding i2c_linux_write_byte
    write_byte-KeepsBlocks v = bind-KeepsBlocks k g set_addr-KeepsBlocks λ _.
        bind-KeepsBlocks k g (deref-KeepsBlocks k g bus.bus_data) λ b. call-KeepsBlocks k g _ refl

    read_byte-KeepsBlocks : (v : ℕ) → KeepsBlocks k g (i2c_linux_read_byte bus dev v (some f))
    unfolding i2c_linux_read_byte
    read_byte-KeepsBlocks v = bind-KeepsBlocks k g set_addr-KeepsBlocks λ _.
        bind-KeepsBlocks k g (deref-KeepsBlocks k g bus.bus_data) λ b.
          bind-KeepsBlocks k g (call-KeepsBlocks k g (Event.smbus_read_byte b.fh) refl)
            λ r. pure-KeepsBlocks k g (store_byte r v)

    write_byte_data-KeepsBlocks :
        (c v : ℕ) → KeepsBlocks k g (i2c_linux_write_byte_data bus dev c v (some f))
    unfolding i2c_linux_write_byte_data
    write_byte_data-KeepsBlocks c v = bind-KeepsBlocks k g set_addr-KeepsBlocks λ _.
        bind-KeepsBlocks k g (deref-KeepsBlocks k g bus.bus_data) λ b. call-KeepsBlocks k g _ refl

    read_byte_data-KeepsBlocks :
        (c v : ℕ) → KeepsBlocks k g (i2c_linux_read_byte_data bus dev c v (some f))
    unfolding i2c_linux_read_byte_data
    read_byte_data-KeepsBlocks c v = bind-KeepsBlocks k g set_addr-KeepsBlocks λ _.
        bind-KeepsBlocks k g (deref-KeepsBlocks k g bus.bus_data) λ b.
          bind-KeepsBlocks k g (call-KeepsBlocks k g (Event.smbus_read_byte_data b.fh c) refl)
            λ r. pure-KeepsBlocks k g (store_byte r v)

    configure_ports-KeepsBlocks :
        (s : Mcp23017IoState) → KeepsBlocks k g (configure_ports bus dev s (some f))
    unfolding configure_ports
    configure_ports-KeepsBlocks s = bind-KeepsBlocks k g (write_byte_data-KeepsBlocks _ _) λ ra.
        if-KeepsBlocks k g (eqb_ℤ ra (pos 0))
          (bind-KeepsBlocks k g (write_byte_data-KeepsBlocks _ _) λ rb. pure-KeepsBlocks k g _)
          (pure-KeepsBlocks k g _)

    configure_io-KeepsBlocks :
        (s : Mcp23017IoState) → KeepsBlocks k g (configure_io bus dev s (some f))
    unfolding configure_io
    configure_io-KeepsBlocks mcp23017_none = pure-KeepsBlocks k g _
    configure_io-KeepsBlocks mcp23017_read = configure_ports-KeepsBlocks mcp23017_read
    configure_io-KeepsBlocks mcp23017_write = configure_ports-KeepsBlocks mcp23017_write

    ensure_state-KeepsBlocks :
        (s : Mcp23017IoState) → KeepsBlocks k g (ensure_state bus dev s (some f))
    unfolding ensure_state
    ensure_state-KeepsBlocks s = bind-KeepsBlocks k g (deref-KeepsBlocks k g dev.dev_data) λ d.
        if-KeepsBlocks k g (is_state d.io_state s) (pure-KeepsBlocks k g d)
          (configure_io-KeepsBlocks s)

    write_latches-KeepsBlocks : (v : ℕ) → KeepsBlocks k g (write_latches bus dev v (some f))
    unfolding write_latches
    write_latches-KeepsBlocks v = bind-KeepsBlocks k g (write_byte_data-KeepsBlocks _ _) λ ra.
        if-KeepsBlocks k g (eqb_ℤ ra (pos 0))
          (bind-KeepsBlocks k g (write_byte_data-KeepsBlocks _ _) λ rb. pure-KeepsBlocks k g _)
          (pure-KeepsBlocks k g _)

    read_ports-KeepsBlocks : (v : ℕ) → KeepsBlocks k g (read_ports bus dev v (some f))
    unfolding read_ports
    read_ports-KeepsBlocks v = bind-KeepsBlocks k g (read_byte_data-KeepsBlocks _ _) λ ra.
        if-KeepsBlocks k g (eqb_ℤ ra.0 (pos 0))
          (bind-KeepsBlocks k g (read_byte_data-KeepsBlocks _ _) λ rb. pure-KeepsBlocks k g _)
          (pure-KeepsBlocks k g _)

    pub pcf8574_write-KeepsBlocks : (v : ℕ) → KeepsBlocks k g (Pcf8574.write bus dev v (some f))
    unfolding Pcf8574.write
    pcf8574_write-KeepsBlocks v =
        bind-KeepsBlocks k g (write_byte-KeepsBlocks _) λ rc. pure-KeepsBlocks k g _

    pub pcf8574_read-KeepsBlocks : (v : ℕ) → KeepsBlocks k g (Pcf8574.read bus dev v (some f))
    unfolding Pcf8574.read
    pcf8574_read-KeepsBlocks v =
        bind-KeepsBlocks k g (read_byte-KeepsBlocks _) λ rc. pure-KeepsBlocks k g _

  pub mcp23017_write-KeepsBlocks :
      (dev : IoDev) (v : ℕ) → KeepsBlocks k g (Mcp23017.write bus dev v (some f))
  unfolding Mcp23017.write
  mcp23017_write-KeepsBlocks dev v =
      bind-KeepsBlocks k g (ensure_state-KeepsBlocks dev mcp23017_write) λ d.
        if-KeepsBlocks k g (is_state d.io_state mcp23017_write)
          (bind-KeepsBlocks k g (write_latches-KeepsBlocks (record dev { dev_data = some d }) _)
            λ rc. pure-KeepsBlocks k g _)
          (bind-KeepsBlocks k g (quiet (text "Could not configure given MCP23017 in write mode"))
            λ _. pure-KeepsBlocks k g _)

  pub mcp23017_read-KeepsBlocks :
      (dev : IoDev) (v : ℕ) → KeepsBlocks k g (Mcp23017.read bus dev v (some f))
  unfolding Mcp23017.read
  mcp23017_read-KeepsBlocks dev v =
      bind-KeepsBlocks k g (ensure_state-KeepsBlocks dev mcp23017_read) λ d.
        if-KeepsBlocks k g (is_state d.io_state mcp23017_read)
          (read_ports-KeepsBlocks (record dev { dev_data = some d }) v)
          (bind-KeepsBlocks k g (quiet (text "Could not configure givem MCP23017 in read mode"))
            λ _. pure-KeepsBlocks k g _)
