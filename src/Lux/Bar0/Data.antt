-- ===== src/Lux/Bar0/Data.antt =====
-- What the GPIO registers of function 0 show after a write.
use qemu_devices_and_drivers.Base.{
  ℕ, bit_and, bit_or, bit_xor, none, some, ◌≡◌, refl, ◌∙◌, arith, Bool, true, false, ap, Option,
}
use qemu_devices_and_drivers.Words.{u64, not64}
use qemu_devices_and_drivers.Words.Masks.{or_missing, and_present, changed_pins}
use qemu_devices_and_drivers.Lux.Device.{F0, IsValid, reg_data, reg_set, reg_clr}
use qemu_devices_and_drivers.Lux.Led.{device_get_led_states, device_set_led_states}
use qemu_devices_and_drivers.Lux.Led.States.{
  IsRestKept, IsRestKept-trans, get-device_set_led_states, get-device_clr_led_states,
  device_get_led_states-lt, device_set_led_states-IsValid, device_clr_led_states-IsValid,
  device_set_led_states-IsRestKept, device_clr_led_states-IsRestKept,
}
use qemu_devices_and_drivers.Lux.Bar0.{
  f0_bar0_read, f0_bar0_write, write_data, write_set, write_clr, write_direction, f0_bar0_access,
}

-- The value of the data register.
abbrev pub data_of : F0 → ℕ
data_of f = device_get_led_states f

module _ (f : F0) (v : ℕ) (h : IsValid f) where
  abbrev old : ℕ
  old = device_get_led_states f

  pub get-write_set :
      device_get_led_states (write_set f v) ≡ bit_or old (bit_and (u64 v) f.direction)
  unfolding write_set
  get-write_set =
      get-device_set_led_states f (bit_and (u64 v) (not64 old)) h
      ∙ or_missing old (u64 v) f.direction (device_get_led_states-lt f) (omega arith)
          h.direction_fits

  pub get-write_clr :
      device_get_led_states (write_clr f v) ≡ bit_and old (not64 (bit_and (u64 v) f.direction))
  unfolding write_clr
  get-write_clr =
      get-device_clr_led_states f (bit_and (u64 v) old) h
      ∙ and_present old (u64 v) f.direction (device_get_led_states-lt f) (omega arith)
          h.direction_fits

  pub get-write_data :
      device_get_led_states (write_data f v)
      ≡ bit_or (bit_and (u64 v) f.direction) (bit_and old (not64 f.direction))
  unfolding write_data
  get-write_data =
      let changed = bit_xor (u64 v) old in
      let f' = (device_set_led_states f (bit_and (u64 v) changed)).0 in
      let h' : IsValid f' = device_set_led_states-IsValid f (bit_and (u64 v) changed) h in
      let k : IsRestKept f f' = device_set_led_states-IsRestKept f (bit_and (u64 v) changed) h in
      get-device_clr_led_states f' (bit_and (not64 (u64 v)) changed) h'
      ∙ rw (k.direction_kept, get-device_set_led_states f (bit_and (u64 v) changed) h)
          (changed_pins old (u64 v) f.direction (device_get_led_states-lt f) (omega arith)
            h.direction_fits)

  pub write_set-IsRestKept : IsRestKept f (write_set f v)
  unfolding write_set
  write_set-IsRestKept = device_set_led_states-IsRestKept f _ h

  pub write_clr-IsRestKept : IsRestKept f (write_clr f v)
  unfolding write_clr
  write_clr-IsRestKept = device_clr_led_states-IsRestKept f _ h

  pub write_data-IsRestKept : IsRestKept f (write_data f v)
  unfolding write_data
  write_data-IsRestKept =
      IsRestKept-trans (device_set_led_states-IsRestKept f _ h)
        (device_clr_led_states-IsRestKept _ _ (device_set_led_states-IsValid f _ h))

  pub write_set-IsValid : IsValid (write_set f v)
  unfolding write_set
  write_set-IsValid = device_set_led_states-IsValid f _ h

  pub write_clr-IsValid : IsValid (write_clr f v)
  unfolding write_clr
  write_clr-IsValid = device_clr_led_states-IsValid f _ h

  pub write_data-IsValid : IsValid (write_data f v)
  unfolding write_data
  write_data-IsValid = device_clr_led_states-IsValid _ _ (device_set_led_states-IsValid f _ h)

-- A 64-bit read of the data register.
abbrev pub read_data : F0 → Option ℕ
read_data f = (f0_bar0_read f 8 reg_data).1

read_data_lem : (f : F0) → read_data f ≡ some (device_get_led_states f)
unfolding f0_bar0_read
read_data_lem f = refl

-- After an 8-byte write of `v` to the data register, a read of it gives `v` at the pins that are
-- outputs and the old level at the pins that are inputs. The direction, the control and cause
-- registers and the colours are unchanged.
pub f0_bar0_read-f0_bar0_write_data :
    (f : F0) (v : ℕ)
    → IsValid f
    → let f' = (f0_bar0_write f v 8 reg_data).0 in
      (read_data f'
        ≡ some (
            bit_or
              (bit_and (u64 v) f.direction)
              (bit_and (device_get_led_states f) (not64 f.direction))))
      × IsRestKept f f'
unfolding f0_bar0_write
f0_bar0_read-f0_bar0_write_data f v h =
    (read_data_lem (write_data f v) ∙ ap some (get-write_data f v h), write_data-IsRestKept f v h)

-- After an 8-byte write of a mask to the set register, a read of the data register gives the old
-- levels with the masked output pins on. The other registers and the colours are unchanged.
f0_bar0_read-f0_bar0_write_set :
    (f : F0) (v : ℕ)
    → IsValid f
    → let f' = (f0_bar0_write f v 8 reg_set).0 in
      (read_data f' ≡ some (bit_or (device_get_led_states f) (bit_and (u64 v) f.direction)))
      × IsRestKept f f'
unfolding f0_bar0_write
f0_bar0_read-f0_bar0_write_set f v h =
    (read_data_lem (write_set f v) ∙ ap some (get-write_set f v h), write_set-IsRestKept f v h)

-- After an 8-byte write of a mask to the clear register, a read of the data register gives the old
-- levels with the masked output pins off. The other registers and the colours are unchanged.
f0_bar0_read-f0_bar0_write_clr :
    (f : F0) (v : ℕ)
    → IsValid f
    → let f' = (f0_bar0_write f v 8 reg_clr).0 in
      (read_data f'
        ≡ some (bit_and (device_get_led_states f) (not64 (bit_and (u64 v) f.direction))))
      × IsRestKept f f'
unfolding f0_bar0_write
f0_bar0_read-f0_bar0_write_clr f v h =
    (read_data_lem (write_clr f v) ∙ ap some (get-write_clr f v h), write_clr-IsRestKept f v h)

write_direction-IsValid :
    (f : F0) (buf count : ℕ) → IsValid f → IsValid (write_direction f buf count).0
unfolding write_direction
write_direction-IsValid f buf count h = ground arith

-- Every access to function 0's BAR 0, a read or a write at any offset and of any size, keeps the
-- registers within their widths and the LED file at 64 entries.
pub f0_bar0_access-IsValid :
    (f : F0) (buf count offset : ℕ) (is_write : Bool)
    → IsValid f
    → IsValid (f0_bar0_access f buf count offset is_write).0
unfolding f0_bar0_access f0_bar0_read f0_bar0_write
f0_bar0_access-IsValid f buf count offset true h = ground (
  arith,
  write_direction-IsValid f buf count h,
  write_data-IsValid f buf h,
  write_set-IsValid f buf h,
  write_clr-IsValid f buf h,
)
f0_bar0_access-IsValid f buf count offset false h = ground arith

-- An access to function 0's BAR 0 that is refused, with the result -1, leaves function 0 as it was.
f0_bar0_access_refused :
    (f : F0) (buf count offset : ℕ) (is_write : Bool)
    → (f0_bar0_access f buf count offset is_write).1 ≡ none
    → (f0_bar0_access f buf count offset is_write).0 ≡ f
unfolding f0_bar0_access f0_bar0_read f0_bar0_write write_direction
f0_bar0_access_refused f buf count offset true h = ground arith
f0_bar0_access_refused f buf count offset false h = ground arith
