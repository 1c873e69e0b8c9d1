-- ===== src/Piface.antt =====
-- src/dev_piface.c: the PiFace board as a device. It ignores the bus, and reads its outputs.
use switcher_c.Base.{ℕ, ◌%◌, if◌then◌else◌}
use switcher_c.Base.Int.{ℤ, pos, ltb_ℤ, u8_mod}
use switcher_c.Config.{IoBus, IoDev}
use switcher_c.Driver.{ReadReply, read_reply}
use switcher_c.Pfio
use switcher_c.World.{Io, ErrorCb, pure, ◌>>=◌, ◌>>◌}

unfoldable pub init : IoBus → IoDev → Io (ℤ × IoDev)
init bus dev = do rc ← Pfio.init; pure (if ltb_ℤ rc (pos 0) then pos 1 else pos 0, dev)

unfoldable pub write : IoBus → IoDev → ℕ → ErrorCb → Io (ℤ × IoDev)
write bus dev value cb_error = do Pfio.write_output (value % u8_mod); pure (pos 1, dev)

unfoldable pub read : IoBus → IoDev → ℕ → ErrorCb → Io ReadReply
read bus dev value cb_error = do v ← Pfio.read_output; pure (read_reply (pos 1) v dev)

unfoldable pub deinit : IoBus → IoDev → Io (ℤ × IoDev)
deinit bus dev = do rc ← Pfio.deinit; pure (if ltb_ℤ rc (pos 0) then pos 1 else pos 0, dev)
