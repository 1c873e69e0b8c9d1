-- ===== src/Tables/Board.antt =====
-- src/io.c with src/dev_piface.c and src/pfio.c: a request, down to the transfers on the SPI bus.
use switcher_c.Base.{ℕ, ◌%◌, ◌^◌, ◌<◌, ◌≡◌, ◌∙◌, refl, ap, Option, some, ◌∷◌, ◌==◌, if◌then◌else◌}
use switcher_c.Base.Bits.{bit}
use switcher_c.Base.Int.{pos, u8_mod}
use switcher_c.Config.{IoBus, IoDev, IoConfig, IoData, DevDrv, piface, cmd_write}
use switcher_c.Driver.{read_reply}
use switcher_c.IoCore.{
  SuccessCb, call_success, outcome, perform_io, finish_write, set_sub_dev, store_dev, dev_read,
  dev_write,
}
use switcher_c.IoCore.Effects.{NamesSub, perform_io-write_sub}
use switcher_c.IoCore.Requests.{NamesBus, NamesDev}
use switcher_c.Pfio.Pins.{Sends, transfer-Sends}
use switcher_c.Pfio.{
  spi_read_cmd, spi_write_cmd, output_port, read_output, write_output, spi_read, spi_write,
}
use switcher_c.Piface
use switcher_c.Tables.{drivers}
use switcher_c.World.{Event, Env, World, Spi, ErrorCb, ok, and_then, deref, ◌>>=◌}

module _ (env : Env) (sends : Sends env) {spi : Spi} (bus : IoBus) (dev : IoDev) (ce : ErrorCb)
    (w : World) (opened : w.spi ≡ some spi) (board : dev.drv_handle ≡ some piface) (v : ℕ) where
  pub dev_read-piface :
      let ask = Event.spi_message spi.fd spi_read_cmd output_port 0xff in
      dev_read drivers bus dev v ce env w
      ≡ ok (read_reply (pos 1) (env.out w.log ask % u8_mod) dev) (record w { log = ask ∷ w.log })
  unfolding dev_read Piface.read read_output spi_read
  dev_read-piface =
      ap
        (λ (h : Option DevDrv).
          and_then (deref h env w)
            (λ a. (deref (drivers.dev_ops a).read >>= λ read. read bus dev v ce) env))
        board
      ∙ rw (transfer-Sends env sends w spi_read_cmd output_port 0xff opened)

  dev_write-piface :
      dev_write drivers bus dev v ce env w
      ≡ ok
          (pos 1, dev)
          (record w {
            log = Event.spi_message spi.fd spi_write_cmd output_port (v % u8_mod) ∷ w.log;
          })
  unfolding dev_write Piface.write write_output spi_write
  dev_write-piface =
      ap
        (λ (h : Option DevDrv).
          and_then (deref h env w)
            (λ a. (deref (drivers.dev_ops a).write >>= λ write. write bus dev v ce) env))
        board
      ∙ rw (transfer-Sends env sends w spi_write_cmd output_port (v % u8_mod) opened)

module _ (c : IoConfig) (d : IoData) (cs : SuccessCb) (ce : ErrorCb) (env : Env) (w : World)
    {i j : ℕ} {bus : IoBus} {dev : IoDev} (nb : NamesBus c d i bus) (nd : NamesDev d bus j dev)
    (sends : Sends env) {spi : Spi} (opened : w.spi ≡ some spi)
    (board : dev.drv_handle ≡ some piface) where
  -- A write to sub-device `n` (below 32) of a PiFace that is named by the request, with the SPI
  -- device open and every transfer carried out, is two transfers: it reads the output port, and
  -- writes to it the low byte of a value whose digit `n` is set exactly when the requested value
  -- is not 0, and whose other digits below 32 are as read; then the success callback runs, and
  -- the result is `EXIT_SUCCESS`.
  pub perform_io-piface_pin :
      {n : ℕ} (k : ℕ)
      → NamesSub d n
      → k < 32
      → let ask = Event.spi_message spi.fd spi_read_cmd output_port 0xff in
        let old = env.out w.log ask % u8_mod in
        let v = set_sub_dev d.value (2 ^ n) old in
        (perform_io drivers c d cmd_write cs ce env w
          ≡ and_then
              (call_success cs d env (record w {
                log = Event.spi_message spi.fd spi_write_cmd output_port (v % u8_mod) ∷ ask ∷ w.log;
              }))
              (λ _ w'. ok (outcome (pos 0) (store_dev c d bus dev) d) w'))
        × (bit k v ≡ (if n == k then (if d.value == 0 then 0 else 1) else bit k old))
  unfolding finish_write
  perform_io-piface_pin {n} k s lt =
      let ask = Event.spi_message spi.fd spi_read_cmd output_port 0xff in
      let old = env.out w.log ask % u8_mod in
      let w' = record w { log = ask ∷ w.log } in
      let written =
        perform_io-write_sub drivers c d cs ce env w nb nd (read_reply (pos 1) old dev) w'
          (dev_read-piface env sends bus dev ce w opened board d.value) refl k s lt in
      (
        written.0
            ∙ rw (
                dev_write-piface env sends bus dev ce w' opened board
                  (set_sub_dev d.value (2 ^ n) old)),
        written.1,
      )
