-- ===== src/Tests/Clients.antt =====
-- The theorems of the user programs, of the interrupt chip's chained handler and of the edu driver at
-- concrete inputs.
use qemu_devices_and_drivers.Base.{
  ℕ, zero, suc, ◌+◌, ◌-◌, ◌/◌, ◌%◌, ◌^◌, ◌<◌, ◌≢◌, Bool, true, false, ◌==◌, if◌then◌else◌, Option,
  none, some, List, [], ◌∷◌, ◌++◌, get_or, done, fault, ◌≡◌, refl, arith,
}
use native.Mathlib.Nat.{pow-suc}
use native.Mathlib.Decide.{ℕ_discrete}
use qemu_devices_and_drivers.Words.Bits.{bit}
use qemu_devices_and_drivers.Protocol.{LedCommand}
use qemu_devices_and_drivers.Lux.Device.{F1, IsValid, IsMgmtValid}
use qemu_devices_and_drivers.Lux.Led.{device_get_led_states}
use qemu_devices_and_drivers.Lux.Mgmt.Irq.{pending}
use qemu_devices_and_drivers.Drivers.Cdev.{LuxCdev, count_of, IrqAnswers, lux_smart_open}
use qemu_devices_and_drivers.Drivers.Cdev.Written.{IsQuiet}
use qemu_devices_and_drivers.Drivers.Irq.{lux_irq_chained_handler}
use qemu_devices_and_drivers.Drivers.Irq.Chained.{IsFfs, dispatched, lux_irq_chained_handler_lem}
use qemu_devices_and_drivers.Drivers.Edu.{
  EduDev, edu_write, ioctl_liveness, edu_irq_handler, irq_cookie, pci_dev_cookie,
}
use qemu_devices_and_drivers.Drivers.Edu.Lost.{IsUnseen, edu_driver-IsUnseen}
use qemu_devices_and_drivers.Clients.Print.{gpio_out_mask, print_string, print_to_led}
use qemu_devices_and_drivers.Clients.Print.Shown.{IsReady, Shows, print_string-Shows}
use qemu_devices_and_drivers.Clients.Print.Ended.{print_to_led_ends}
use qemu_devices_and_drivers.Tests.Lux.{gpio, gpio-IsValid}

abbrev takes_all : List LedCommand → Bool
takes_all sent = true

abbrev wait_on : LuxCdev → LuxCdev × Option ℕ
wait_on c = (record c { last_irq_cause = 1 }, none)

abbrev sleep : LuxCdev → LuxCdev
sleep c = record c { wakeups = c.wakeups + 1 }

wait_on-IsQuiet : IsQuiet (λ c. (wait_on c).0)
wait_on-IsQuiet = record {
  stays_valid = λ c v. v;
  direction_kept = λ c. refl;
  leds_kept = λ c. refl;
}

sleep-IsQuiet : IsQuiet sleep
sleep-IsQuiet = record { stays_valid = λ c v. v; direction_kept = λ c. refl; leds_kept = λ c. refl }

abbrev closed : LuxCdev
closed = record { device = gpio; last_irq_cause = 0; was_error = false; wakeups = 0 }

abbrev ready : LuxCdev
ready = record closed { device = record gpio { direction = gpio_out_mask } }

ready-IsReady : IsReady ready
ready-IsReady = record {
  valid = record {
    leds_count = refl;
    direction_fits = omega arith;
    led_ctrl_fits = omega arith;
    led_irq_cause_fits = omega arith;
    state_fits = gpio-IsValid.state_fits;
  };
  all_out = refl;
}

print_example :
    (device' : LuxCdev) × (print_string takes_all wait_on sleep ((72 ∷ []) ++ 105 ∷ []) ready
      ≡ done device')
    × IsReady device'
    × Shows 105 64 device'
print_example =
    print_string-Shows takes_all wait_on sleep (λ sent. refl) wait_on-IsQuiet sleep-IsQuiet
      (72 ∷ []) 105 ready ready-IsReady

abbrev both_lines : IrqAnswers
both_lines = record { domain = true; virq = 33; virq_err = 34; request = none; request_err = none }

both_lines_open : (lux_smart_open both_lines closed).1 ≡ count_of 0
unfolding lux_smart_open
both_lines_open = refl

program_example :
    (device' : LuxCdev) × (print_to_led takes_all wait_on sleep both_lines (72 ∷ 105 ∷ []) closed
      ≡ done device')
    × IsValid device'.device
    × (device_get_led_states device'.device ≡ 0)
    × (device'.device.led_ctrl ≡ 0)
program_example =
    print_to_led_ends takes_all wait_on sleep (λ sent. refl) wait_on-IsQuiet sleep-IsQuiet
      both_lines (72 ∷ 105 ∷ []) closed gpio-IsValid both_lines_open

-- The number of the lowest bit, of a word of so many bits.
lowest_bit : ℕ → ℕ → ℕ
lowest_bit zero w = 0
lowest_bit (suc n) w = let rest = lowest_bit n (w / 2) in if w % 2 == 1 then 0 else suc rest

bit-lowest_bit : (n w : ℕ) → w ≢ 0 → w < 2 ^ n → bit w (lowest_bit n w) ≡ 1
unfolding lowest_bit bit
bit-lowest_bit zero w differs l = absurd (differs (omega arith))
bit-lowest_bit (suc n) w differs l = elim (ℕ_discrete (w % 2) 1) [
  | yes odd ↦ rw odd odd
  | no even ↦ rw (==_off (w % 2) even) (
      bit-lowest_bit n (w / 2) (λ e. differs (omega (arith, e, even))) (omega (arith, pow-suc 2 n)))
]
  where
    ==_off : (a : ℕ) → a ≢ 1 → (a == 1) ≡ false
    ==_off a n = ground arith

bit-below_lowest : (n w j : ℕ) → w ≢ 0 → w < 2 ^ n → j < lowest_bit n w → bit w j ≡ 0
unfolding lowest_bit bit
bit-below_lowest zero w j differs l below = absurd (omega arith)
bit-below_lowest (suc n) w zero differs l below = ground arith
bit-below_lowest (suc n) w (suc j) differs l below = elim (ℕ_discrete (w % 2) 1) [
  | yes odd ↦ absurd (ground arith)
  | no even ↦
      bit-below_lowest n (w / 2) j (λ e. differs (omega (arith, e, even)))
        (omega (arith, pow-suc 2 n)) (ground arith)
]

lowest_bit-IsFfs : IsFfs (lowest_bit 32)
lowest_bit-IsFfs = record {
  at_set = λ w differs l. bit-lowest_bit 32 w differs l;
  first = λ w j differs l below. bit-below_lowest 32 w j differs l below;
}

abbrev Lines : Type 0
Lines = F1 × List ℕ

abbrev raised : F1
raised = record {
  irq_status = 5;
  irq_mask = 2;
  timer_ctrl = 0;
  timer_val = 0;
  timer_cmp = 0;
  last_tick_ns = 0;
  last_delta_ns = 0;
  fired = 0;
}

raised-IsMgmtValid : IsMgmtValid raised
raised-IsMgmtValid = record {
  irq_status_fits = omega arith;
  irq_mask_fits = omega arith;
  timer_ctrl_fits = omega arith;
  timer_val_fits = omega arith;
  timer_cmp_fits = omega arith;
  last_delta_fits = omega arith;
}

abbrev device_of : Lines → F1
device_of s = s.0

abbrev keep_line : ℕ → Lines → Lines
keep_line k s = (s.0, s.1 ++ k ∷ [])

chained_example :
    lux_irq_chained_handler device_of (lowest_bit 32) keep_line 32 (raised, [])
    ≡ some (
        dispatched device_of
          (lowest_bit 32)
          keep_line
          (λ k. pending raised k == 1)
          32
          0
          (raised, []))
chained_example =
    lux_irq_chained_handler_lem device_of (lowest_bit 32) keep_line lowest_bit-IsFfs 32 (raised, [])
      raised-IsMgmtValid (omega arith)

-- A device of 256 registers.
abbrev registers_read : (ℕ → ℕ) → ℕ → (ℕ → ℕ) × ℕ
registers_read h offset = (h, h offset)

abbrev registers_write : (ℕ → ℕ) → ℕ → ℕ → ℕ → ℕ
registers_write h value offset j = if j == offset then value else h j

abbrev factorial_of : (ℕ → ℕ) → ℕ
factorial_of h = h 8

abbrev digit : List ℕ → ℕ × Option ℕ
digit buf = (get_or buf 0 48 - 48, none)

abbrev edu : EduDev (ℕ → ℕ)
edu = record { hw = λ j. j; result = 0; is_done = false; wakeups = 0 }

edu_example :
    IsUnseen factorial_of 8
      (edu_write registers_read registers_write digit edu 2 (some (53 ∷ 10 ∷ [])))
    × (edu_write registers_read registers_write digit edu 0 (some []) ≡ fault)
    × (factorial_of (EduDev.hw (ioctl_liveness registers_read registers_write edu (some 7) false).0)
        ≡ 8)
    × (edu_irq_handler registers_read registers_write irq_cookie edu ≡ fault)
    × IsUnseen factorial_of 8
        (edu_irq_handler registers_read registers_write (pci_dev_cookie true) edu)
edu_example =
    edu_driver-IsUnseen registers_read registers_write factorial_of (λ h offset. refl)
      (λ h value. refl) digit edu 2 (some (53 ∷ 10 ∷ [])) [] (some 7) false true (omega arith)
