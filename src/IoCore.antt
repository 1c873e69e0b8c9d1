-- ===== src/IoCore.antt =====
-- src/io.c: the bus and device configuration, and the commands on it. The driver tables are a
-- parameter here, as in the source, which calls them through function pointers.
pub mod Contract
pub mod Ready
pub mod Serve
pub mod Effects
pub mod Loop
pub mod Init
pub mod Lifecycle
pub mod Requests
pub mod Wiring
pub mod SubDevice
use Prim.Native.Nat.{bit_and, bit_or}
use switcher_c.Base.{
  ℕ, zero, suc, ◌-◌, ◌/◌, ◌^◌, Bool, true, not, ◌&&◌, ◌||◌, Option, none, some, List, [], ◌∷◌, ltb,
  ◌==◌, if◌then◌else◌,
}
use switcher_c.Base.Int.{ℤ, pos, negsuc, pos_part, ltb_ℤ, eqb_ℤ, u32_mod}
use switcher_c.Base.Text.{Bytes, text}
use switcher_c.Config.{
  IoCmd, cmd_none, cmd_write, cmd_read, IoDev, IoBus, IoConfig, IoData, idx_invalid, elem_at,
  set_at, max_busses, max_io_devices,
}
use switcher_c.Driver.{ReadReply, Drivers}
use switcher_c.World.{Io, ErrorCb, pure, undefined_behaviour, ◌>>=◌, ◌>>◌, deref, call_error}

-- `for (i = 0; i < n; i++) body(array + i)`: a round past the end of the array is undefined.
unfoldable pub for_first : {A : Type 0} → ℕ → (A → Io A) → List A → Io (List A)
for_first zero body xs = pure xs
for_first (suc n) body [] = undefined_behaviour
for_first (suc n) body (x ∷ xs) = do x' ← body x; xs' ← for_first n body xs; pure (x' ∷ xs')

unfoldable pub init_dev : IoDev → Io IoDev
init_dev dev = pure (record { drv_handle = none; dev_bus_data = none; dev_data = none })

-- The bus driver is left as it is.
unfoldable pub init_bus : IoBus → Io IoBus
unfolding for_first init_dev
init_bus bus = do
  devices ← for_first max_io_devices init_dev bus.devices
  pure (record bus { num_devices = pos 0; devices = devices; bus_data = none })

unfoldable pub conf_init : IoConfig → Io (ℤ × IoConfig)
unfolding init_bus
conf_init config = do
  busses ← for_first max_busses init_bus config.busses
  pure (pos 0, record { num_busses = pos 0; busses = busses })

-- The type of `cb_success`, with its buffer; NULL is `none`.
abbrev pub SuccessCb : Type 0
SuccessCb = Option (IoData → Io (Unit {0}))

abbrev pub call_success : SuccessCb → IoData → Io (Unit {0})
call_success none d = undefined_behaviour
call_success (some f) d = f d

-- The return value of `perform_io`, with what it leaves behind its pointer arguments.
pub record Outcome : Type 0 where
  pub rc : ℤ
  pub config : IoConfig
  pub data_out : IoData

abbrev pub outcome : ℤ → IoConfig → IoData → Outcome
outcome r c d = record { rc = r; config = c; data_out = d }

abbrev pub refuse : Bytes → IoConfig → IoData → ErrorCb → Io Outcome
refuse msg config d cb_error = do call_error cb_error msg; pure (outcome (pos 1) config d)

-- `1 << i` on a 32-bit `int`, as a bit pattern.
unfoldable pub shift_one : ℤ → Option ℕ
shift_one (pos i) = if ltb i 32 then some (2 ^ i) else none
shift_one (negsuc i) = none

-- `value |= 1 << i` if the requested value is not 0, else `value &= ~(1 << i)`.
unfoldable pub set_sub_dev : ℕ → ℕ → ℕ → ℕ
set_sub_dev requested mask value =
    if requested == 0 then bit_and value (u32_mod - 1 - mask) else bit_or value mask

-- `(value >> i) & 1`.
unfoldable pub get_sub_dev : ℕ → ℕ → ℕ
get_sub_dev i value = bit_and (value / 2 ^ i) 1

unfoldable pub store_dev : IoConfig → IoData → IoBus → IoDev → IoConfig
store_dev config d bus dev = record config {
  busses =
      set_at config.busses d.idx_bus (record bus { devices = set_at bus.devices d.idx_dev dev });
}

-- The check of the device index: the bus is read only if the index is not the invalid one.
unfoldable pub device_missing : IoConfig → IoData → Io Bool
device_missing config d = if eqb_ℤ d.idx_dev idx_invalid then pure true else (do
  bus ← deref (elem_at config.busses d.idx_bus)
  pure (not (ltb_ℤ d.idx_dev bus.num_devices)))

-- The reply to a finished read.
unfoldable pub finish_read : IoConfig → IoData → SuccessCb → ErrorCb → Io Outcome
finish_read config d cb_success cb_error =
    if eqb_ℤ d.idx_sub_dev idx_invalid
    then (do call_success cb_success d; pure (outcome (pos 0) config d))
    else if not (ltb_ℤ d.idx_sub_dev (pos 0)) && ltb_ℤ d.idx_sub_dev (pos 32)
    then (do
      let d' = record d { value = get_sub_dev (pos_part d.idx_sub_dev) d.value }
      call_success cb_success d'
      pure (outcome (pos 0) config d'))
    else (do
      call_error cb_error (text "Invalid sub device-index given.")
      call_success cb_success d
      pure (outcome (pos 0) config d))

module _ (drivers : Drivers) where
  -- `drv_handle->read` and `drv_handle->write`, where either pointer may be NULL.
  unfoldable pub dev_read : IoBus → IoDev → ℕ → ErrorCb → Io ReadReply
  dev_read bus dev value cb_error = do
    handle ← deref dev.drv_handle
    read ← deref (drivers.dev_ops handle).read
    read bus dev value cb_error

  unfoldable pub dev_write : IoBus → IoDev → ℕ → ErrorCb → Io (ℤ × IoDev)
  dev_write bus dev value cb_error = do
    handle ← deref dev.drv_handle
    write ← deref (drivers.dev_ops handle).write
    write bus dev value cb_error

  -- The write itself, and the callback if it succeeds.
  unfoldable pub finish_write :
      IoConfig → IoData → IoBus → IoDev → ℕ → SuccessCb → ErrorCb → Io Outcome
  finish_write config d bus dev value cb_success cb_error = do
    (rc, dev') ← dev_write bus dev value cb_error
    let config' = store_dev config d bus dev'
    if ltb_ℤ (pos 0) rc
        then (do call_success cb_success d; pure (outcome (pos 0) config' d))
        else pure (outcome (pos 0) config' d)

  unfoldable pub perform_write :
      IoConfig → IoData → IoBus → IoDev → SuccessCb → ErrorCb → Io Outcome
  perform_write config d bus dev cb_success cb_error =
      if eqb_ℤ d.idx_sub_dev idx_invalid
      then finish_write config d bus dev d.value cb_success cb_error
      else (do
        r ← dev_read bus dev d.value cb_error
        if ltb_ℤ (pos 0) r.rc
            then (do
              mask ← deref (shift_one d.idx_sub_dev)
              finish_write config d bus r.dev (set_sub_dev d.value mask r.value) cb_success
                  cb_error)
            else refuse (text "Could not read from device.") (store_dev config d bus r.dev) d
                cb_error)

  unfoldable pub perform_read : IoConfig → IoData → IoBus → IoDev → SuccessCb → ErrorCb → Io Outcome
  perform_read config d bus dev cb_success cb_error = do
    r ← dev_read bus dev d.value cb_error
    let config' = store_dev config d bus r.dev
    let d' = record d { value = r.value }
    if ltb_ℤ (pos 0) r.rc
        then finish_read config' d' cb_success cb_error
        else pure (outcome (pos 0) config' d')

  -- The device that the indices name.
  unfoldable pub at_device : IoConfig → IoData → (IoBus → IoDev → Io Outcome) → Io Outcome
  at_device config d k = do
    bus ← deref (elem_at config.busses d.idx_bus)
    dev ← deref (elem_at bus.devices d.idx_dev)
    k bus dev

  unfoldable pub perform_cmd : IoConfig → IoData → IoCmd → SuccessCb → ErrorCb → Io Outcome
  perform_cmd config d cmd_none cb_success cb_error =
      refuse (text "Illegal command.") config d cb_error
  perform_cmd config d cmd_write cb_success cb_error =
      at_device config d (λ bus dev. perform_write config d bus dev cb_success cb_error)
  perform_cmd config d cmd_read cb_success cb_error =
      at_device config d (λ bus dev. perform_read config d bus dev cb_success cb_error)

  unfoldable pub perform_io : IoConfig → IoData → IoCmd → SuccessCb → ErrorCb → Io Outcome
  perform_io config d cmd cb_success cb_error =
      if eqb_ℤ d.idx_bus idx_invalid || not (ltb_ℤ d.idx_bus config.num_busses)
      then refuse (text "Bus ID not existing.") config d cb_error
      else (do
        missing ← device_missing config d
        if missing
            then refuse (text "Device ID not existing.") config d cb_error
            else perform_cmd config d cmd cb_success cb_error)
