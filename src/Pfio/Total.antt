-- ===== src/Pfio/Total.antt =====
-- src/pfio.c: transfers with the SPI device open.
use switcher_c.Base.{ℕ, ◌≡◌, refl, inl, inr, some, Bool-cases}
use switcher_c.Base.Int.{pos, ltb_ℤ}
use switcher_c.IoCore.Contract.{KeepsSpi}
use switcher_c.Pfio.{spi_error, spi_transfer, spi_read, spi_write, read_output, write_output}
use switcher_c.World.{Event, Spi, Env, World}
use switcher_c.World.Returns.{Returns, returns, bind, deref-Returns}

module _ {spi : Spi} (env : Env) (w : World) (opened : w.spi ≡ some spi) where
  spi_transfer-Returns :
      (cmd port value : ℕ) → Returns (KeepsSpi w) (spi_transfer cmd port value env w)
  unfolding spi_transfer spi_error
  spi_transfer-Returns cmd port value = bind (deref-Returns env w opened) λ s w' (_, same).
      elim (Bool-cases (ltb_ℤ (env.ret w'.log (Event.spi_message s.fd cmd port value)) (pos 1))) [
        | inl failed ↦ rw failed (rw same (returns refl))
        | inr sent ↦ rw sent (rw same (returns refl))
      ]

  pub read_output-Returns : Returns (KeepsSpi w) (read_output env w)
  unfolding read_output spi_read
  read_output-Returns = spi_transfer-Returns _ _ _

  pub write_output-Returns : (value : ℕ) → Returns (KeepsSpi w) (write_output value env w)
  unfolding write_output spi_write
  write_output-Returns value = bind (spi_transfer-Returns _ _ value) λ _ w' p. returns p
