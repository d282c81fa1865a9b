-- ===== src/Drivers/Cdev.antt =====
-- qemu-drivers/led-gpio/lux-cdev.c: the character device of the smart LEDs, run against the model of
-- function 0. What `wait_event_interruptible` does when it has to sleep is the argument `wait`: the
-- interrupts that come meanwhile, and 0 or the error of a signal. A negative file offset is a large
-- `size_t`. The reads of the direction register that only order a write before are left out: they
-- change nothing.
pub mod Files
pub mod Causes
pub mod Written
use qemu_devices_and_drivers.Base.{
  ℕ, ◌+◌, ◌*◌, ◌/◌, ◌%◌, ◌^◌, bit_and, Bool, true, false, ◌&&◌, ◌||◌, ◌==◌, ltb, leb, if◌then◌else◌,
  Option, none, some, List, Outcome, done, fault, bind,
}
use qemu_devices_and_drivers.Words.{u64, not32, not64}
use qemu_devices_and_drivers.Protocol.{LedCommand}
use qemu_devices_and_drivers.Lux.Device.{
  F0, led_nr, reg_direction, reg_data, reg_led_ctrl, reg_led_irq_cause,
}
use qemu_devices_and_drivers.Lux.Events.{led_ctrl_irq_en, lux_irq_led_err_unknown_cmd}
use qemu_devices_and_drivers.Lux.Bar0.{f0_bar0_access}
use qemu_devices_and_drivers.Lux.Bar1.{f0_bar1_access}
use qemu_devices_and_drivers.Drivers.Gpio.{readq, writeq}

-- `struct lux_cdev` and the wake-ups of its queue, with the device.
pub record LuxCdev : Type 0 where
  pub device : F0
  pub last_irq_cause : ℕ
  pub was_error : Bool
  pub wakeups : ℕ

-- What a file operation returns: a count, or minus an error.
pub data CdevRet : Type 0 where
  count_of : ℕ → CdevRet
  minus : ℕ → CdevRet

abbrev pub einval : ℕ
einval = 22

abbrev pub erange : ℕ
erange = 34

abbrev eagain : ℕ
eagain = 11

abbrev ebusy : ℕ
ebusy = 16

abbrev pub efault : ℕ
efault = 14

abbrev enotty : ℕ
enotty = 25

abbrev pub sizeof_smart_led : ℕ
sizeof_smart_led = 8

-- A read of a 4-byte register of BAR 0, and a write.
unfoldable pub cdev_readl : F0 → ℕ → F0 × ℕ
cdev_readl f offset =
    let r = f0_bar0_access f 0 4 offset false in
    (r.0, elim r.1 [ none ↦ not32 0 | some value ↦ value ])

unfoldable pub cdev_writel : F0 → ℕ → ℕ → F0
cdev_writel f value offset = (f0_bar0_access f value 4 offset true).0

-- `led_irq_cause_names` has entries up to the largest single cause.
abbrev pub led_irq_cause_names_nr : ℕ
led_irq_cause_names_nr = 9

-- `lux_smart_led_irq_handler`, and `lux_smart_led_err_irq_handler` with `is_error`.
unfoldable pub lux_smart_irq_handler : Bool → LuxCdev → Outcome LuxCdev
lux_smart_irq_handler is_error c =
    let (f, cause) = cdev_readl c.device reg_led_irq_cause in
    if ltb cause led_irq_cause_names_nr
    then done (record c {
      device = f;
      last_irq_cause = cause;
      was_error = is_error;
      wakeups = c.wakeups + 1;
    })
    else fault

unfoldable pub lux_smart_led_irq_handler : LuxCdev → Outcome LuxCdev
lux_smart_led_irq_handler = lux_smart_irq_handler false

unfoldable pub lux_smart_led_err_irq_handler : LuxCdev → Outcome LuxCdev
lux_smart_led_err_irq_handler = lux_smart_irq_handler true

-- The lines whose handlers are registered, and what the kernel answers: whether the interrupt domain
-- exists, the two mappings, and the errors of `request_irq`.
pub record IrqAnswers : Type 0 where
  pub domain : Bool
  pub virq : ℕ
  pub virq_err : ℕ
  pub request : Option ℕ
  pub request_err : Option ℕ

-- The result, and the interrupts that are registered afterwards.
unfoldable pub lux_smart_open : IrqAnswers → LuxCdev → LuxCdev × CdevRet × List ℕ
lux_smart_open a c =
    if a.domain
    then (if a.virq == 0 || a.virq_err == 0 then (c, minus ebusy, List.[]) else elim a.request [
      | some error ↦ (c, minus error, List.[])
      | none ↦ elim a.request_err [
        | some error ↦ (c, minus error, List.[])
        | none ↦ (
          record c { device = cdev_writel c.device led_ctrl_irq_en reg_led_ctrl },
          count_of 0,
          List.◌∷◌ a.virq (List.◌∷◌ a.virq_err List.[]),
        )
      ]
    ])
    else (c, minus eagain, List.[])

unfoldable pub lux_smart_release : LuxCdev → LuxCdev × CdevRet
lux_smart_release c = (record c { device = cdev_writel c.device 0 reg_led_ctrl }, count_of 0)

-- The wait for an interrupt: it does not sleep when there is a cause already.
unfoldable pub wait_for_cause : (LuxCdev → LuxCdev × Option ℕ) → LuxCdev → LuxCdev × Option ℕ
wait_for_cause wait c = if c.last_irq_cause == 0 then wait c else (c, none)

-- `lux_smart_write` from the wait on, with the file offset.
unfoldable pub finish_write : ℕ → ℕ → LuxCdev × Option ℕ → LuxCdev × CdevRet × ℕ
finish_write count offset (c, some error) = (record c { last_irq_cause = 0 }, minus error, offset)
finish_write count offset (c, none) = (
  record c { last_irq_cause = 0 },
  if bit_and c.last_irq_cause lux_irq_led_err_unknown_cmd == 0
      then count_of count
      else minus einval,
  offset + sizeof_smart_led,
)

-- What `readq` gives.
abbrev pub read_value : Option ℕ → ℕ
read_value none = not64 0
read_value (some value) = value

module _ (write_ok : List LedCommand → Bool) where
  -- `led` is what `copy_from_user` gives.
  unfoldable pub lux_smart_write :
      (LuxCdev → LuxCdev × Option ℕ)
      → LuxCdev
      → (count offset : ℕ) → (led : Option ℕ) → Outcome (LuxCdev × CdevRet × ℕ)
  lux_smart_write wait c count offset led =
      if count == sizeof_smart_led
      then if leb (led_nr * sizeof_smart_led) offset
        then done (c, minus erange, offset)
        else elim led [
          | none ↦ done (c, minus efault, offset)
          | some word ↦
              let led_id = offset / sizeof_smart_led in
              bind (f0_bar1_access write_ok c.device word 8 (led_id * sizeof_smart_led) true) (λ r.
                done (finish_write count offset (wait_for_cause wait (record c { device = r.0 }))))
        ]
      else done (c, minus einval, offset)

  -- The LED that the user gets, with the file offset.
  unfoldable pub lux_smart_read :
      LuxCdev
      → (count offset : ℕ) → (copy_fails : Bool) → Outcome (LuxCdev × CdevRet × Option ℕ × ℕ)
  lux_smart_read c count offset copy_fails =
      if count == sizeof_smart_led
      then if leb (led_nr * sizeof_smart_led) offset
        then done (c, minus erange, none, offset)
        else bind
            (f0_bar1_access write_ok c.device 0 8 (offset / sizeof_smart_led * sizeof_smart_led)
              false)
            (λ r.
              let led = read_value r.1 in
              let c' = record c { device = r.0 } in
              if copy_fails
              then done (c', minus efault, none, offset)
              else done (c', count_of count, some led, offset + sizeof_smart_led))
      else done (c, minus einval, none, offset)

-- `lux_vma_fault`: the page that is mapped, or SIGBUS. The page size is 4096.
unfoldable pub lux_vma_fault : (bar_start bar_len pgoff : ℕ) → Option ℕ
lux_vma_fault bar_start bar_len pgoff =
    let offset = u64 (pgoff * 4096) in
    if leb bar_len offset
    then none
    else if bar_start == 0
    then none
    else some (u64 (bar_start + offset) / 4096)

-- The commands of `lux_smart_ioctl`.
pub data CdevIoctl : Type 0 where
  other_magic : CdevIoctl
  clear_screen : CdevIoctl
  set_direction_out : ℕ → CdevIoctl
  set_direction_in : ℕ → CdevIoctl
  get_info : (copy_fails : Bool) → CdevIoctl
  unknown : CdevIoctl

-- `struct lux_hw_info`.
pub record LuxHwInfo : Type 0 where
  pub num_leds : ℕ
  pub rows : ℕ
  pub cols : ℕ

unfoldable pub lux_smart_ioctl : LuxCdev → CdevIoctl → LuxCdev × CdevRet × Option LuxHwInfo
lux_smart_ioctl c other_magic = (c, minus enotty, none)
lux_smart_ioctl c clear_screen =
    (record c { device = writeq c.device 0 reg_data }, count_of 0, none)
lux_smart_ioctl c (set_direction_out arg) =
    (record c { device = writeq c.device arg reg_direction }, count_of 0, none)
lux_smart_ioctl c (set_direction_in arg) =
    (record c { device = writeq c.device (not64 arg) reg_direction }, count_of 0, none)
lux_smart_ioctl c (get_info true) = (c, minus efault, none)
lux_smart_ioctl c (get_info false) =
    (c, count_of 0, some (record { num_leds = led_nr; rows = 8; cols = 8 }))
lux_smart_ioctl c unknown = (c, minus enotty, none)
