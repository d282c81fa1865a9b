-- ===== src/Lux/Bar1/Valid.antt =====
-- Accesses to the smart LEDs keep function 0 valid.
use qemu_devices_and_drivers.Base.{
  ◌||◌, ◌+◌, ℕ, ◌*◌, ◌%◌, ◌≡◌, ◌∙◌, arith, Bool, true, false, List, ◌==◌, ltb, bit_and, length-set,
  get_or-set_self, get_or-set_ne, ltb→lt, if◌then◌else◌, Outcome, done, fault, Option, subst,
}
use native.Mathlib.Decide.{ℕ_discrete}
use qemu_devices_and_drivers.Words.{◌<<<◌}
use qemu_devices_and_drivers.Protocol.{LedCommand, Color}
use qemu_devices_and_drivers.Lux.Device.{dark, F0, IsValid, led_nr}
use qemu_devices_and_drivers.Lux.Led.States.{
  device_set_led_states-IsValid, device_clr_led_states-IsValid,
}
use qemu_devices_and_drivers.Lux.Bar1.{
  f0_bar1_access, f0_bar1_read, f0_bar1_write, f0_bar1_write_smart_led,
  f0_bar1_write_smart_led_component, write_led_state, write_led_color, device_set_led_color,
  and_then, count_or_error, reg_state, reg_color, f0_bar1_reg_size, led_id_of,
}

-- If the computation stays in bounds, function 0 is valid after it.
abbrev pub KeepsValid : {X : Type 0} → Outcome (F0 × X) → Type 0
KeepsValid (done r) = IsValid r.0
KeepsValid fault = Unit

and_then-KeepsValid :
    (m : Outcome (F0 × Bool)) (next : F0 → Outcome (F0 × Bool))
    → KeepsValid m
    → ((f : F0) → IsValid f → KeepsValid (next f))
    → KeepsValid (and_then m next)
and_then-KeepsValid (done (f, true)) next v k = k f v
and_then-KeepsValid (done (f, false)) next v k = v
and_then-KeepsValid fault next v k = tt

count_or_error-KeepsValid :
    (count : ℕ) (m : Outcome (F0 × Bool)) → KeepsValid m → KeepsValid (count_or_error count m)
count_or_error-KeepsValid count (done (f, true)) v = v
count_or_error-KeepsValid count (done (f, false)) v = v
count_or_error-KeepsValid count fault v = tt

if-KeepsValid :
    {X : Type 0} (b : Bool) (m n : Outcome (F0 × X))
    → (b ≡ true → KeepsValid m)
    → KeepsValid n
    → KeepsValid (if b then m else n)
if-KeepsValid true m n u v = u (λ i. true)
if-KeepsValid false m n u v = v

write_led_state-KeepsValid : (f : F0) (i s : ℕ) → IsValid f → KeepsValid (write_led_state f i s)
unfolding write_led_state
write_led_state-KeepsValid f i s v =
    if-KeepsValid (ltb i led_nr) _ fault
      (λ l.
        if-KeepsValid (bit_and s 1 == 1) _ _ (λ o. device_set_led_states-IsValid f (1 <<< i) v)
          (device_clr_led_states-IsValid f (1 <<< i) v))
      tt

module _ (write_ok : List LedCommand → Bool) where
  write_led_color-KeepsValid :
      (i : ℕ) (c : Color) (f : F0) → IsValid f → KeepsValid (write_led_color write_ok f i c)
  unfolding write_led_color device_set_led_color
  write_led_color-KeepsValid i c f v =
      if-KeepsValid (ltb i led_nr) _ fault
        (λ l. record {
          leds_count = length-set f.leds i _ ∙ v.leds_count;
          direction_fits = v.direction_fits;
          led_ctrl_fits = v.led_ctrl_fits;
          led_irq_cause_fits = v.led_irq_cause_fits;
          state_fits = λ j. elim (ℕ_discrete i j) [
            | yes e ↦
                rw (← e, get_or-set_self f.leds i _ dark (omega (arith, v, ltb→lt i led_nr l)))
                  (v.state_fits i)
            | no n ↦ rw (get_or-set_ne f.leds i j _ dark n) (v.state_fits j)
          ];
        })
        tt

  f0_bar1_write-KeepsValid :
      (f : F0) (buf count offset : ℕ)
      → IsValid f
      → KeepsValid (f0_bar1_write write_ok f buf count offset)
  unfolding f0_bar1_write f0_bar1_write_smart_led f0_bar1_write_smart_led_component
  f0_bar1_write-KeepsValid f buf count offset v =
      if-KeepsValid (count == f0_bar1_reg_size * 2) _ _
        (λ _. count_or_error-KeepsValid count _ (
          and_then-KeepsValid _ _ (write_led_state-KeepsValid f _ _ v)
            (write_led_color-KeepsValid _ _)))
        (if-KeepsValid (count == f0_bar1_reg_size) _ _
          (λ _. count_or_error-KeepsValid count _ (
            if-KeepsValid (offset % f0_bar1_reg_size == reg_state) _ _
              (λ _. write_led_state-KeepsValid f _ _ v)
              (if-KeepsValid (offset % f0_bar1_reg_size == reg_color) _ _
                (λ _. write_led_color-KeepsValid _ _ f v) v)))
          v)

  f0_bar1_read-KeepsValid :
      (f : F0) (buf count offset : ℕ) → IsValid f → KeepsValid (f0_bar1_read f buf count offset)
  unfolding f0_bar1_read
  f0_bar1_read-KeepsValid f buf count offset v =
      if-KeepsValid (count == f0_bar1_reg_size * 2) _ _
        (λ _. if-KeepsValid (ltb (led_id_of offset) led_nr) _ fault (λ _. v) tt)
        (if-KeepsValid (count == f0_bar1_reg_size) _ _
          (λ _.
            if-KeepsValid
              (ltb (led_id_of offset) (
                if offset % f0_bar1_reg_size == reg_state || offset % f0_bar1_reg_size == reg_color
                then led_nr
                else led_nr + 1))
              _ fault (λ _. v) tt)
          v)

  -- Every access to function 0's BAR 1 that does not run out of the LED array keeps the registers
  -- within their widths and the LED file at 64 entries.
  pub f0_bar1_access-KeepsValid :
      (f : F0) (buf count offset : ℕ) (is_write : Bool)
      → IsValid f
      → KeepsValid (f0_bar1_access write_ok f buf count offset is_write)
  unfolding f0_bar1_access
  f0_bar1_access-KeepsValid f buf count offset true v =
      f0_bar1_write-KeepsValid f buf count offset v
  f0_bar1_access-KeepsValid f buf count offset false v =
      f0_bar1_read-KeepsValid f buf count offset v

  pub f0_bar1_write-IsValid :
      (f f' : F0) (buf count offset : ℕ) (r : Option ℕ)
      → IsValid f
      → f0_bar1_write write_ok f buf count offset ≡ done (f', r)
      → IsValid f'
  f0_bar1_write-IsValid f f' buf count offset r v e =
      subst KeepsValid e (f0_bar1_write-KeepsValid f buf count offset v)
