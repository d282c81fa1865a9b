-- ===== src/Drivers/Edu.antt =====
-- qemu-drivers/pci-driver: the driver of QEMU's edu device (char.c, the interrupt handler of pci.c and
-- the register accesses of include/pci.h). The device is not in the repository: its state is `Hw`, and
-- `ioread32` and `iowrite32` are its reads and writes by offset. `wait` is what happens while
-- `wait_event_interruptible` sleeps, `decimal` is `snprintf` with "%u", and `parse` is `kstrtou32`.
pub mod Lost
use qemu_devices_and_drivers.Base.{
  ℕ, zero, suc, ◌+◌, ◌-◌, bit_and, min, Bool, true, false, ◌==◌, ltb, if◌then◌else◌, Option, none,
  some, List, [], length, get_or, take, Outcome, done, fault,
}

abbrev edu_reg_ident : ℕ
edu_reg_ident = 0x00

abbrev edu_reg_liveness : ℕ
edu_reg_liveness = 0x04

abbrev edu_reg_factorial : ℕ
edu_reg_factorial = 0x08

abbrev edu_reg_status : ℕ
edu_reg_status = 0x20

abbrev edu_reg_irqack : ℕ
edu_reg_irqack = 0x64

abbrev edu_status_computing : ℕ
edu_status_computing = 0x1

abbrev edu_status_raiseirq : ℕ
edu_status_raiseirq = 0x80

abbrev buf_size : ℕ
buf_size = 512

abbrev newline : ℕ
newline = 10

-- `struct edu_dev`, with the device and the wake-ups of the queue.
pub record EduDev (Hw : Type 0) : Type 0 where
  pub hw : Hw
  pub result : ℕ
  pub is_done : Bool
  pub wakeups : ℕ

-- A count, or minus an error.
pub data EduRet : Type 0 where
  count_of : ℕ → EduRet
  minus : ℕ → EduRet

pub data IrqReturn : Type 0 where
  irq_none : IrqReturn
  irq_handled : IrqReturn

-- What the handler is called with: a `struct pci_dev`, and whether it has the device as its data, or a
-- `struct edu_dev`.
pub data Cookie : Type 0 where
  pci_dev_cookie : (found : Bool) → Cookie
  edu_dev_cookie : Cookie

-- `edu_probe` registers `&global_device`.
abbrev pub irq_cookie : Cookie
irq_cookie = edu_dev_cookie

abbrev efault : ℕ
efault = 14

abbrev einval : ℕ
einval = 22

abbrev enodev : ℕ
enodev = 19

-- The open of a device file by its minor number.
unfoldable pub edu_open : ℕ → EduRet
edu_open minor = if ltb 0 minor then minus enodev else count_of 0

module _ {Hw : Type 0} (ioread32 : Hw → ℕ → Hw × ℕ) (iowrite32 : Hw → (value offset : ℕ) → Hw) where
  unfoldable pub edu_hw_read : EduDev Hw → ℕ → EduDev Hw × ℕ
  edu_hw_read e reg = let r = ioread32 e.hw reg in (record e { hw = r.0 }, r.1)

  -- The register is not added to the base.
  unfoldable pub edu_hw_write : EduDev Hw → (reg value : ℕ) → EduDev Hw
  edu_hw_write e reg value = record e { hw = iowrite32 e.hw value 0 }

  -- `edu_read`, with what the user gets and the file offset.
  unfoldable pub edu_read :
      (decimal : ℕ → List ℕ)
      → (wait : EduDev Hw → EduDev Hw × Option ℕ) → EduDev Hw
      → (offset : ℕ) → (copy_fails : Bool) → EduDev Hw × EduRet × List ℕ × ℕ
  edu_read decimal wait e offset copy_fails =
      if ltb 0 offset
      then (e, count_of 0, [], offset)
      else let waited : EduDev Hw × Option ℕ = if e.is_done then (e, none) else wait e in
        elim waited.1 [
          | some error ↦ (waited.0, minus error, [], offset)
          | none ↦
              let buf = decimal 0 in
              if copy_fails
              then (waited.0, minus efault, [], offset)
              else (waited.0, count_of (length buf), buf, length buf)
        ]

  -- The string in the buffer: a newline at the end is taken off.
  abbrev pub without_newline : List ℕ → ℕ → List ℕ
  without_newline buf n = if get_or buf (n - 1) 0 == newline then take (n - 1) buf else buf

  -- `edu_write` from the parsed number on.
  unfoldable pub write_number : EduDev Hw → ℕ → ℕ → EduDev Hw × EduRet
  write_number e n number = if ltb 12 number then (e, minus einval) else (
    edu_hw_write (edu_hw_write e edu_reg_status edu_status_raiseirq) edu_reg_factorial number,
    count_of n,
  )

  -- `user` is what `copy_from_user` gives: as many bytes as the driver asks for, or nothing. With no
  -- byte, the driver looks at the byte before its buffer.
  unfoldable pub edu_write :
      (parse : List ℕ → ℕ × Option ℕ)
      → EduDev Hw
      → (user_len : ℕ) → (user : Option (List ℕ)) → Outcome (EduDev Hw × EduRet)
  edu_write parse e user_len user =
      let e' : EduDev Hw = record e { is_done = false } in
      let n = min user_len (buf_size - 1) in
      elim user [
        | none ↦ done (e', minus efault)
        | some bytes ↦
            if n == 0
            then fault
            else let (number, error) = parse (without_newline (take n bytes) n) in
              elim error [
                | some code ↦ done (e', minus code)
                | none ↦ done (write_number e' n number)
              ]
      ]

  -- The value that `put_user` gets.
  unfoldable pub ioctl_ident : EduDev Hw → (put_fails : Bool) → EduDev Hw × EduRet × Option ℕ
  ioctl_ident e put_fails =
      let r = edu_hw_read e edu_reg_ident in
      if put_fails then (r.0, minus efault, none) else (r.0, count_of 0, some r.1)

  unfoldable pub ioctl_liveness :
      EduDev Hw → (challenge : Option ℕ) → (put_fails : Bool) → EduDev Hw × EduRet × Option ℕ
  ioctl_liveness e none put_fails = (e, minus efault, none)
  ioctl_liveness e (some challenge) put_fails =
      let r = edu_hw_read (edu_hw_write e edu_reg_liveness challenge) edu_reg_liveness in
      if put_fails then (r.0, minus efault, none) else (r.0, count_of 0, some r.1)

  unfoldable pub is_computing_factorial : EduDev Hw → EduDev Hw × Bool
  is_computing_factorial e =
      let r = edu_hw_read e edu_reg_status in
      (r.0, if bit_and r.1 edu_status_computing == 0 then false else true)

  -- The handler takes its cookie for a `struct pci_dev`: with another, the behaviour is undefined.
  unfoldable pub edu_irq_handler : Cookie → EduDev Hw → Outcome (EduDev Hw × IrqReturn)
  edu_irq_handler edu_dev_cookie e = fault
  edu_irq_handler (pci_dev_cookie false) e = done (e, irq_none)
  edu_irq_handler (pci_dev_cookie true) e =
      let s = is_computing_factorial e in
      if s.1
      then done (s.0, irq_none)
      else let r = edu_hw_read s.0 edu_reg_factorial in
        let e' : EduDev Hw = record r.0 { result = r.1; is_done = true } in
        let acked = edu_hw_write e' edu_reg_irqack 1 in
        done (record acked { wakeups = acked.wakeups + 1 }, irq_handled)
