-- ===== src/Drivers/Edu/Lost.antt =====
-- qemu-drivers/pci-driver: what the driver of the edu device gets across to the device.
use qemu_devices_and_drivers.Base.{
  ℕ, ◌<◌, arith, min, bit_and, Bool, true, false, ◌==◌, ltb, Option, none, some, List, Outcome,
  done, fault, ◌≡◌, refl, ◌∙◌, Bool-cases, Option-cases, inl, inr, take,
}
use qemu_devices_and_drivers.Drivers.Edu.{
  EduDev, edu_hw_read, edu_hw_write, write_number, edu_write, ioctl_liveness,
  is_computing_factorial, edu_irq_handler, without_newline, pci_dev_cookie, irq_cookie,
}

-- The call is defined, and leaves what is observed of the device as it is.
abbrev pub IsUnseen : {Hw A X : Type 0} → (Hw → A) → A → Outcome (EduDev Hw × X) → Type 0
IsUnseen observe a (done r) = observe r.0.hw ≡ a
IsUnseen observe a fault = ⊥

module _ {Hw A : Type 0} (ioread32 : Hw → ℕ → Hw × ℕ) (iowrite32 : Hw → (value offset : ℕ) → Hw)
    (observe : Hw → A) (reads : (h : Hw) (offset : ℕ) → observe (ioread32 h offset).0 ≡ observe h)
    (at_base : (h : Hw) (value : ℕ) → observe (iowrite32 h value 0) ≡ observe h) where
  write_number_unseen :
      (e : EduDev Hw) (n number : ℕ)
      → observe (EduDev.hw (write_number ioread32 iowrite32 e n number).0) ≡ observe e.hw
  unfolding write_number edu_hw_write
  write_number_unseen e n number = elim (Bool-cases (ltb 12 number)) [
    | inl h ↦ rw h refl
    | inr h ↦ rw h (at_base _ _ ∙ at_base _ _)
  ]

  edu_write-IsUnseen :
      (parse : List ℕ → ℕ × Option ℕ) (e : EduDev Hw) (user_len : ℕ) (user : Option (List ℕ))
      → (0 < user_len)
      → IsUnseen observe (observe e.hw) (edu_write ioread32 iowrite32 parse e user_len user)
  unfolding edu_write
  edu_write-IsUnseen parse e user_len none l = refl
  edu_write-IsUnseen parse e user_len (some bytes) l =
      let some_byte : (min user_len 511 == 0) ≡ false = ground arith in
      let parsed =
        parse
          (without_newline ioread32 iowrite32 (take (min user_len 511) bytes) (min user_len 511)) in
      rw some_byte (elim (Option-cases parsed.1) [
        | inl ok ↦ rw ok (write_number_unseen _ _ parsed.0)
        | inr (code, failed) ↦ rw failed refl
      ])

  edu_write_empty :
      (parse : List ℕ → ℕ × Option ℕ) (e : EduDev Hw) (bytes : List ℕ)
      → edu_write ioread32 iowrite32 parse e 0 (some bytes) ≡ fault
  unfolding edu_write
  edu_write_empty parse e bytes = refl

  edu_irq_handler-IsUnseen :
      (found : Bool) (e : EduDev Hw)
      → IsUnseen observe
          (observe e.hw)
          (edu_irq_handler ioread32 iowrite32 (pci_dev_cookie found) e)
  unfolding edu_irq_handler is_computing_factorial edu_hw_read edu_hw_write
  edu_irq_handler-IsUnseen false e = refl
  edu_irq_handler-IsUnseen true e =
      let status = ioread32 e.hw 0x20 in
      elim (Bool-cases (bit_and status.1 1 == 0)) [
        | inl idle ↦ rw idle (at_base _ _ ∙ reads _ _ ∙ reads _ _)
        | inr busy ↦ rw busy (reads _ _)
      ]

  edu_irq_handler_registered :
      (e : EduDev Hw) → edu_irq_handler ioread32 iowrite32 irq_cookie e ≡ fault
  unfolding edu_irq_handler
  edu_irq_handler_registered e = refl

  ioctl_liveness_unseen :
      (e : EduDev Hw) (challenge : Option ℕ) (put_fails : Bool)
      → observe (EduDev.hw (ioctl_liveness ioread32 iowrite32 e challenge put_fails).0)
        ≡ observe e.hw
  unfolding ioctl_liveness edu_hw_read edu_hw_write
  ioctl_liveness_unseen e none put_fails = refl
  ioctl_liveness_unseen e (some challenge) true = reads _ _ ∙ at_base _ _
  ioctl_liveness_unseen e (some challenge) false = reads _ _ ∙ at_base _ _

  -- A part of the device that reads, and writes at offset 0, leave alone is as it was after a write
  -- of at least one byte to the file, which is defined, and after the liveness ioctl, whatever number
  -- or challenge they were to send. A write of no bytes, once they are copied, is undefined. So is the
  -- interrupt handler with the cookie that is registered for it. With a `struct pci_dev` instead it
  -- would be defined, but would leave that part of the device alone, too.
  pub edu_driver-IsUnseen :
      (parse : List ℕ → ℕ × Option ℕ) (e : EduDev Hw) (user_len : ℕ) (user : Option (List ℕ))
      (bytes : List ℕ) (challenge : Option ℕ) (put_fails found : Bool)
      → 0 < user_len
      → IsUnseen observe (observe e.hw) (edu_write ioread32 iowrite32 parse e user_len user)
        × (edu_write ioread32 iowrite32 parse e 0 (some bytes) ≡ fault)
        × (observe (EduDev.hw (ioctl_liveness ioread32 iowrite32 e challenge put_fails).0)
            ≡ observe e.hw)
        × (edu_irq_handler ioread32 iowrite32 irq_cookie e ≡ fault)
        × IsUnseen observe
            (observe e.hw)
            (edu_irq_handler ioread32 iowrite32 (pci_dev_cookie found) e)
  edu_driver-IsUnseen parse e user_len user bytes challenge put_fails found l = (
    edu_write-IsUnseen parse e user_len user l,
    edu_write_empty parse e bytes,
    ioctl_liveness_unseen e challenge put_fails,
    edu_irq_handler_registered e,
    edu_irq_handler-IsUnseen found e,
  )
