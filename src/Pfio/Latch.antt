-- ===== src/Pfio/Latch.antt =====
-- src/pfio.c: what the board holds on its outputs.
use switcher_c.Base.{ℕ, ◌%◌, ◌≡◌, ◌&&◌, Option, none, some, [], ◌∷◌, ◌==◌, if◌then◌else◌}
use switcher_c.Base.Int.{ℤ, u8_mod}
use switcher_c.Pfio.Pins.{Sends}
use switcher_c.Pfio.{spi_read_cmd, spi_write_cmd, output_port}
use switcher_c.World.{Event, Log, Env}

-- The byte that a call writes to the outputs.
abbrev pub written : Event → Option ℕ
written (Event.spi_message fd cmd port v) =
    if cmd == spi_write_cmd && port == output_port then some v else none
written _ = none

-- What is in the latch of the outputs after the calls of a log: the last byte written to it.
abbrev pub latch : Log → ℕ
latch [] = 0
latch (e ∷ l) = elim (written e) [ none ↦ latch l | some v ↦ v % u8_mod ]

-- A board that carries every transfer out, and reads its outputs as they were written.
pub record IsBoard (env : Env) : Type 0 where
  pub sends : Sends env
  pub latched :
      (l : Log) (fd : ℤ)
      → env.out l (Event.spi_message fd spi_read_cmd output_port 0xff) % u8_mod ≡ latch l
