-- ===== src/Tables/EndToEnd.antt =====
-- src/io.c with src/mcp23017.c and src/io_i2c_linux.c: a request, down to the calls of the kernel.
use switcher_c.Base.{
  ℕ, ◌+◌, ◌*◌, ◌/◌, ◌%◌, ◌^◌, ◌<◌, ◌≡◌, ◌∙◌, refl, ap, Option, some, ◌∷◌, ◌==◌, if◌then◌else◌, inl,
  inr, Bool-cases, ◌≢◌, arith,
}
use switcher_c.Base.Bits.{bit}
use switcher_c.Base.Int.{ℤ, pos, negsuc, minus_one, eqb_ℤ, u8_mod}
use switcher_c.Base.Text.{text}
use switcher_c.Config.{
  IoBus, IoDev, IoConfig, IoData, Mcp23017Data, DevDrv, pcf8574, idx_invalid, mcp23017,
  mcp23017_read, mcp23017_write, cmd_write,
}
use switcher_c.Driver.{read_reply}
use switcher_c.I2cLinux.Total.{IsWired}
use switcher_c.IoCore.{
  SuccessCb, call_success, outcome, perform_io, finish_write, set_sub_dev, store_dev, dev_read,
  dev_write,
}
use switcher_c.IoCore.Effects.{
  NamesSub, perform_io-write_sub, perform_io-write_whole, perform_io-write_unread,
}
use switcher_c.IoCore.Requests.{NamesBus, NamesDev}
use switcher_c.Mcp23017.Traffic.{Acks, wrote, asked, directed, with_state, read-Acks, write-Acks}
use switcher_c.Mcp23017.{gpioa, gpiob, olata, olatb}
use switcher_c.I2cLinux.Traffic.{selected, AddressAccepted, write_byte-ok, read_byte-ok}
use switcher_c.Mcp23017
use switcher_c.Pcf8574
use switcher_c.Tables.{drivers}
use switcher_c.World.{Event, Log, Env, World, ErrorCb, call_error, ok, and_then, deref, ◌>>=◌}

-- The driver that a device's handle names is the one that is called.
dev_read-mcp23017 :
    (bus : IoBus) (dev : IoDev) (v : ℕ) (ce : ErrorCb) (env : Env) (w : World)
    → dev.drv_handle ≡ some mcp23017
    → dev_read drivers bus dev v ce env w ≡ Mcp23017.read bus dev v ce env w
unfolding dev_read
dev_read-mcp23017 bus dev v ce env w chip =
    ap
      (λ (h : Option DevDrv).
        and_then (deref h env w)
          (λ a. (deref (drivers.dev_ops a).read >>= λ read. read bus dev v ce) env))
      chip

dev_write-mcp23017 :
    (bus : IoBus) (dev : IoDev) (v : ℕ) (ce : ErrorCb) (env : Env) (w : World)
    → dev.drv_handle ≡ some mcp23017
    → dev_write drivers bus dev v ce env w ≡ Mcp23017.write bus dev v ce env w
unfolding dev_write
dev_write-mcp23017 bus dev v ce env w chip =
    ap
      (λ (h : Option DevDrv).
        and_then (deref h env w)
          (λ a. (deref (drivers.dev_ops a).write >>= λ write. write bus dev v ce) env))
      chip

module _ (c : IoConfig) (d : IoData) (cs : SuccessCb) (ce : ErrorCb) (env : Env) (w : World)
    {i j : ℕ} {bus : IoBus} {dev : IoDev} (nb : NamesBus c d i bus) (nd : NamesDev d bus j dev)
    (acks : Acks env) (wired : IsWired bus.bus_data dev.dev_bus_data)
    (chip : dev.drv_handle ≡ some mcp23017) {dev_data : Mcp23017Data}
    (has : dev.dev_data ≡ some dev_data) where
  open wired use {bus_block, dev_block}

  abbrev before_ports : Log
  before_ports = directed bus_block.fh dev_block.address mcp23017_read dev_data.io_state w.log

  abbrev after_ports : Log
  after_ports =
      asked bus_block.fh dev_block.address gpiob
        (asked bus_block.fh dev_block.address gpioa before_ports)

  -- The kernel's calls of a write of both latches.
  abbrev latched : ℕ → Log → Log
  latched v l =
      wrote bus_block.fh dev_block.address olatb (v / 256 % 256)
        (wrote bus_block.fh dev_block.address olata (v % 256) l)

  finish_write-Acks :
      (w' : World) (v : ℕ)
      → finish_write drivers c d bus (with_state dev mcp23017_read) v cs ce env w'
        ≡ and_then
            (call_success cs d env (record w' {
              log =
                  latched v
                    (directed bus_block.fh dev_block.address mcp23017_write mcp23017_read w'.log);
            }))
            (λ _ w''.
              ok (outcome (pos 0) (store_dev c d bus (with_state dev mcp23017_write)) d) w'')
  unfolding finish_write
  finish_write-Acks w' v =
      let dev' = with_state dev mcp23017_read in
      rw (
        dev_write-mcp23017 bus dev' v ce env w' chip
        ∙ write-Acks bus ce env acks dev' wired refl w' v)

  module _ {a b : ℕ} (a_byte : a < u8_mod) (b_byte : b < u8_mod)
      (port_a : env.ret
          (Event.set_slave bus_block.fh dev_block.address ∷ before_ports)
          (Event.smbus_read_byte_data bus_block.fh gpioa)
        ≡ pos a)
      (port_b : env.ret
          (Event.set_slave bus_block.fh dev_block.address
            ∷ asked bus_block.fh dev_block.address gpioa before_ports)
          (Event.smbus_read_byte_data bus_block.fh gpiob)
        ≡ pos b) where
    read_ports-Acks :
        dev_read drivers bus dev d.value ce env w
        ≡ ok
            (read_reply (pos 1) (a + b * 256) (with_state dev mcp23017_read))
            (record w { log = after_ports })
    read_ports-Acks =
        dev_read-mcp23017 bus dev d.value ce env w chip
        ∙ read-Acks bus ce env acks dev wired has w d.value a_byte b_byte port_a port_b

    -- A write to sub-device `n` (below 32) of an MCP23017 that is named by the request, wired and
    -- has its data, where the kernel accepts every address, the chip acknowledges every register
    -- write, and its ports read the bytes `a` and `b`: the calls are, in order, the direction
    -- registers as inputs (unless the driver knows them to be), both ports, the direction
    -- registers as outputs, and the two latches with the low and the high byte of a value whose
    -- digit `n` is set exactly when the requested value is not 0, and whose other digits below 32
    -- are those of `a + 256 b`; then the success callback runs, and the result is `EXIT_SUCCESS`
    -- with the device remembered as written to.
    pub perform_io-mcp23017_pin :
        {n : ℕ} (k : ℕ)
        → NamesSub d n
        → k < 32
        → let v = set_sub_dev d.value (2 ^ n) (a + b * 256) in
          (perform_io drivers c d cmd_write cs ce env w
            ≡ and_then
                (call_success cs d env (record w {
                  log = latched v (
                      directed bus_block.fh dev_block.address mcp23017_write mcp23017_read
                        after_ports);
                }))
                (λ _ w'.
                  ok (outcome (pos 0) (store_dev c d bus (with_state dev mcp23017_write)) d) w'))
          × (bit k v ≡ (if n == k then (if d.value == 0 then 0 else 1) else bit k (a + b * 256)))
    perform_io-mcp23017_pin {n} k s lt =
        let w' = record w { log = after_ports } in
        let written =
          perform_io-write_sub drivers c d cs ce env w nb nd
            (read_reply (pos 1) (a + b * 256) (with_state dev mcp23017_read)) w' read_ports-Acks
            refl k s lt in
        (written.0 ∙ finish_write-Acks w' (set_sub_dev d.value (2 ^ n) (a + b * 256)), written.1)

dev_write-pcf8574 :
    (bus : IoBus) (dev : IoDev) (v : ℕ) (ce : ErrorCb) (env : Env) (w : World)
    → dev.drv_handle ≡ some pcf8574
    → dev_write drivers bus dev v ce env w ≡ Pcf8574.write bus dev v ce env w
unfolding dev_write
dev_write-pcf8574 bus dev v ce env w chip =
    ap
      (λ (h : Option DevDrv).
        and_then (deref h env w)
          (λ a. (deref (drivers.dev_ops a).write >>= λ write. write bus dev v ce) env))
      chip

dev_read-pcf8574 :
    (bus : IoBus) (dev : IoDev) (v : ℕ) (ce : ErrorCb) (env : Env) (w : World)
    → dev.drv_handle ≡ some pcf8574
    → dev_read drivers bus dev v ce env w ≡ Pcf8574.read bus dev v ce env w
unfolding dev_read
dev_read-pcf8574 bus dev v ce env w chip =
    ap
      (λ (h : Option DevDrv).
        and_then (deref h env w)
          (λ a. (deref (drivers.dev_ops a).read >>= λ read. read bus dev v ce) env))
      chip

module _ (c : IoConfig) (d : IoData) (cs : SuccessCb) (ce : ErrorCb) (env : Env) (w : World)
    {i j : ℕ} {bus : IoBus} {dev : IoDev} (nb : NamesBus c d i bus) (nd : NamesDev d bus j dev)
    (wired : IsWired bus.bus_data dev.dev_bus_data) (chip : dev.drv_handle ≡ some pcf8574) where
  open wired use {bus_block, dev_block}

  -- A write without a sub-device to a PCF8574 that is named by the request and wired, where the
  -- kernel accepts its address: the calls are the selection of the device and one byte, the low
  -- byte of the value. The success callback runs exactly when the kernel answers the byte with 0;
  -- the result is `EXIT_SUCCESS` either way, and the device stays as it was.
  pub perform_io-pcf8574_write :
      {reply : ℤ}
      → d.idx_sub_dev ≡ idx_invalid
      → AddressAccepted bus dev wired ce env w
      → env.ret
          (selected bus dev wired ce env w)
          (Event.smbus_write_byte bus_block.fh (d.value % u8_mod))
        ≡ reply
      → let w' = record w {
        log =
            Event.smbus_write_byte bus_block.fh (d.value % u8_mod)
            ∷ selected bus dev wired ce env w;
      } in
        perform_io drivers c d cmd_write cs ce env w ≡ (
          if eqb_ℤ reply (pos 0)
          then and_then
              (call_success cs d env w')
              (λ _ w''. ok (outcome (pos 0) (store_dev c d bus dev) d) w'')
          else ok (outcome (pos 0) (store_dev c d bus dev) d) w')
  unfolding finish_write Pcf8574.write
  perform_io-pcf8574_write {reply} whole accepted answer =
      perform_io-write_whole drivers c d cs ce env w nb nd whole
      ∙ rw (dev_write-pcf8574 bus dev d.value ce env w chip) (
          rw (write_byte-ok bus dev wired ce env w accepted (d.value % u8_mod))
            (rw answer (elim (Bool-cases (eqb_ℤ reply (pos 0))) [ inl e ↦ rw e | inr e ↦ rw e ])))

  -- A write to a sub-device, whatever its index other than -1, of a PCF8574 that is named by the
  -- request and wired, where the kernel accepts its address and answers the read of its byte with
  -- a negative number: the calls are the selection of the device and that read, the error
  -- callback gets the message "Could not read from device.", and the result is `EXIT_FAILURE`
  -- with the request and the device as they were. Nothing is written to the device.
  pub perform_io-pcf8574_unread :
      {n : ℕ}
      → d.idx_sub_dev ≢ minus_one
      → AddressAccepted bus dev wired ce env w
      → env.ret (selected bus dev wired ce env w) (Event.smbus_read_byte bus_block.fh) ≡ negsuc n
      → let w' = record w {
        log = Event.smbus_read_byte bus_block.fh ∷ selected bus dev wired ce env w;
      } in
        perform_io drivers c d cmd_write cs ce env w
        ≡ and_then
            (call_error ce (text "Could not read from device.") env w')
            (λ _ w''. ok (outcome (pos 1) (store_dev c d bus dev) d) w'')
  unfolding Pcf8574.read
  perform_io-pcf8574_unread {n} part accepted answer =
      perform_io-write_unread drivers c d cs ce env w nb nd (read_reply (pos 0) 0 dev) _
        (dev_read-pcf8574 bus dev d.value ce env w chip
          ∙ rw (read_byte-ok bus dev wired ce env w accepted 0 answer) (ground arith))
        part (omega arith)
