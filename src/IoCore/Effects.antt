-- ===== src/IoCore/Effects.antt =====
-- src/io.c: what `perform_io` writes to a device and gives back from it.
use switcher_c.Base.{
  ℕ, ◌^◌, ◌≤◌, ◌<◌, ◌≡◌, ◌≢◌, ◌∙◌, refl, inl, inr, true, false, none, some, arith, ◌==◌,
  if◌then◌else◌, not, ◌&&◌, Bool-cases, lt→ltb,
}
use switcher_c.Base.Bits.{bit}
use switcher_c.Base.Int.{◌≤ℤ◌, ℤ, pos, negsuc, pos_part, minus_one, ltb_ℤ, eqb_ℤ}
use switcher_c.Base.Text.{text}
use switcher_c.Config.{
  IoCmd, cmd_none, cmd_write, cmd_read, IoDev, IoBus, IoConfig, IoData, idx_invalid,
}
use switcher_c.Driver.{Drivers, ReadReply}
use switcher_c.IoCore.{
  SuccessCb, call_success, outcome, perform_io, perform_write, perform_read, finish_write,
  finish_read, store_dev, shift_one, set_sub_dev, get_sub_dev, dev_read, dev_write,
}
use switcher_c.IoCore.Requests.{NamesBus, NamesDev, run_cmd, perform_io-run_cmd}
use switcher_c.IoCore.SubDevice.{set_sub_dev-bit, get_sub_dev-bit}
use switcher_c.World.{Env, World, ErrorCb, call_error, ok, fault, and_then}

-- The sub-device is digit `i` of a value.
pub record NamesSub (d : IoData) (i : ℕ) : Type 0 where
  pub sub_index : d.idx_sub_dev ≡ pos i
  pub sub_bound : i < 32

-- The sub-device is neither absent nor a digit of a value.
abbrev pub SubOutOfRange : IoData → Type 0
SubOutOfRange d = (d.idx_sub_dev ≢ minus_one) × ((i : ℕ) → d.idx_sub_dev ≡ pos i → 32 ≤ i)

not_minus_one : (z : ℤ) → z ≢ minus_one → eqb_ℤ z minus_one ≡ false
not_minus_one z h = elim (Bool-cases (eqb_ℤ z minus_one)) [
  | inl same ↦ absurd (h (ground arith))
  | inr differ ↦ differ
]

not_positive : (z : ℤ) → z ≤ℤ pos 0 → ltb_ℤ (pos 0) z ≡ false
not_positive (pos n) h = ground arith
not_positive (negsuc n) h = ground arith

shift_one-out : (z : ℤ) → ((i : ℕ) → z ≡ pos i → 32 ≤ i) → shift_one z ≡ none
unfolding shift_one
shift_one-out (pos i) h = ground (arith, h i refl)
shift_one-out (negsuc i) h = refl

shift_one-in : (z : ℤ) (n : ℕ) → z ≡ pos n → n < 32 → shift_one z ≡ some (2 ^ n)
unfolding shift_one
shift_one-in z n e h = rw e (rw (lt→ltb n 32 h))

digit_test-in :
    (z : ℤ) (n : ℕ) → z ≡ pos n → n < 32 → (not (ltb_ℤ z (pos 0)) && ltb_ℤ z (pos 32)) ≡ true
digit_test-in z n e h = rw e (ground arith)

digit_test-out :
    (z : ℤ) → ((i : ℕ) → z ≡ pos i → 32 ≤ i) → (not (ltb_ℤ z (pos 0)) && ltb_ℤ z (pos 32)) ≡ false
digit_test-out (pos i) h = ground (arith, h i refl)
digit_test-out (negsuc i) h = ground arith

module _ (drivers : Drivers) (c : IoConfig) (d : IoData) (cs : SuccessCb) (ce : ErrorCb) (env : Env)
    (w : World) {i j : ℕ} {bus : IoBus} {dev : IoDev} (nb : NamesBus c d i bus)
    (nd : NamesDev d bus j dev) where
  abbrev reaches :
      (cmd : IoCmd)
      → perform_io drivers c d cmd cs ce env w ≡ run_cmd drivers c d cs ce cmd bus dev env w
  reaches cmd = perform_io-run_cmd drivers c d cs ce cmd env w nb nd

  -- Without a sub-device the value is written as it is, and the device is not read first.
  pub perform_io-write_whole :
      d.idx_sub_dev ≡ idx_invalid
      → perform_io drivers c d cmd_write cs ce env w
        ≡ finish_write drivers c d bus dev d.value cs ce env w
  unfolding run_cmd perform_write
  perform_io-write_whole h =
      let t : eqb_ℤ d.idx_sub_dev idx_invalid ≡ true = ground arith in reaches cmd_write ∙ rw t

  module _ (r : ReadReply) (w' : World)
      (read : dev_read drivers bus dev d.value ce env w ≡ ok r w') where
    module _ (got : ltb_ℤ (pos 0) r.rc ≡ true) where
      -- On a request that names a device and its digit `n`, where the read of the device
      -- succeeds, a write writes a value in which digit `n` is set exactly when the requested
      -- value is not 0, and every other of the 32 digits is as read.
      pub perform_io-write_sub :
          {n : ℕ} (k : ℕ)
          → NamesSub d n
          → k < 32
          → let v = set_sub_dev d.value (2 ^ n) r.value in
            (perform_io drivers c d cmd_write cs ce env w
              ≡ finish_write drivers c d bus r.dev v cs ce env w')
            × (bit k v ≡ (if n == k then (if d.value == 0 then 0 else 1) else bit k r.value))
      unfolding run_cmd perform_write
      perform_io-write_sub {n} k s lt =
          (reaches cmd_write ∙ run, set_sub_dev-bit d.value n r.value k s.sub_bound lt)
        where
          t : eqb_ℤ d.idx_sub_dev idx_invalid ≡ false
          t = rw s.sub_index (ground arith)

          mask : shift_one d.idx_sub_dev ≡ some (2 ^ n)
          mask = shift_one-in d.idx_sub_dev n s.sub_index s.sub_bound

          run :
              perform_write drivers c d bus dev cs ce env w
              ≡ finish_write drivers c d bus r.dev
                  (set_sub_dev d.value (2 ^ n) r.value)
                  cs
                  ce
                  env
                  w'
          run = rw (t, read) (rw got (rw mask))

      -- On a request that names a device and a sub-device other than -1 that is not one of the 32
      -- digits, where the read of the device succeeds, a write shifts by the index all the same:
      -- undefined behaviour.
      pub perform_io-write_out_of_range :
          SubOutOfRange d → perform_io drivers c d cmd_write cs ce env w ≡ fault
      unfolding run_cmd perform_write
      perform_io-write_out_of_range out = reaches cmd_write ∙ run
        where
          run : perform_write drivers c d bus dev cs ce env w ≡ fault
          run =
              rw (not_minus_one d.idx_sub_dev out.0, read)
                (rw got (rw (shift_one-out d.idx_sub_dev out.1)))

      -- On a request that names a device and its digit `n`, where the read of the device
      -- succeeds, a read gives digit `n` of what was read to the success callback and in the
      -- request's value, and returns `EXIT_SUCCESS`.
      pub perform_io-read_sub :
          {n : ℕ}
          → NamesSub d n
          → let d' = record d { value = bit n r.value } in
            perform_io drivers c d cmd_read cs ce env w
            ≡ and_then
                (call_success cs d' env w')
                (λ _ w''. ok (outcome (pos 0) (store_dev c d bus r.dev) d') w'')
      unfolding run_cmd perform_read finish_read
      perform_io-read_sub {n} s =
          let t : eqb_ℤ d.idx_sub_dev idx_invalid ≡ false = rw s.sub_index (ground arith) in
          let inside = digit_test-in d.idx_sub_dev n s.sub_index s.sub_bound in
          let value : get_sub_dev (pos_part d.idx_sub_dev) r.value ≡ bit n r.value =
            rw s.sub_index (get_sub_dev-bit n r.value) in
          reaches cmd_read ∙ rw read (rw got (rw t (rw inside (rw value))))

      -- On a request that names a device and a sub-device other than -1 that is not one of the 32
      -- digits, where the read of the device succeeds, a read calls the error callback, then the
      -- success callback all the same, with the value of the whole device, and returns
      -- `EXIT_SUCCESS`.
      pub perform_io-read_out_of_range :
          SubOutOfRange d
          → let d' = record d { value = r.value } in
            perform_io drivers c d cmd_read cs ce env w
            ≡ and_then (call_error ce (text "Invalid sub device-index given.") env w') (λ _ w1.
              and_then
                (call_success cs d' env w1)
                (λ _ w2. ok (outcome (pos 0) (store_dev c d bus r.dev) d') w2))
      unfolding run_cmd perform_read finish_read
      perform_io-read_out_of_range out =
          reaches cmd_read
          ∙ rw read (
              rw got
                (rw (not_minus_one d.idx_sub_dev out.0) (rw (digit_test-out d.idx_sub_dev out.1))))

    -- With a sub-device, whichever it is, a device that is not read is not written.
    pub perform_io-write_unread :
        d.idx_sub_dev ≢ minus_one
        → r.rc ≤ℤ pos 0
        → perform_io drivers c d cmd_write cs ce env w
          ≡ and_then
              (call_error ce (text "Could not read from device.") env w')
              (λ _ w''. ok (outcome (pos 1) (store_dev c d bus r.dev) d) w'')
    unfolding run_cmd perform_write
    perform_io-write_unread part failed =
        let bad : ltb_ℤ (pos 0) r.rc ≡ false = not_positive r.rc failed in
        reaches cmd_write ∙ rw (not_minus_one d.idx_sub_dev part, read) (rw bad)

  -- A read or a write of a device that is counted but has no driver handle uses the null pointer:
  -- undefined behaviour.
  pub perform_io-no_driver :
      (cmd : IoCmd)
      → cmd ≢ cmd_none
      → dev.drv_handle ≡ none
      → perform_io drivers c d cmd cs ce env w ≡ fault
  unfolding run_cmd perform_write perform_read finish_write dev_read dev_write
  perform_io-no_driver cmd_none ne h = absurd (ne refl)
  perform_io-no_driver cmd_read ne h = reaches cmd_read ∙ rw h
  perform_io-no_driver cmd_write ne h =
      reaches cmd_write ∙ elim (Bool-cases (eqb_ℤ d.idx_sub_dev idx_invalid)) [
        | inl all ↦ rw all (rw h)
        | inr part ↦ rw part (rw h)
      ]
