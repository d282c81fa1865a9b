-- ===== src/Mathaccel/Compute/Divide.antt =====
-- The results of one operation, and the division that traps.
use native.Mathlib.Nat.{div-le_self, div-lt_self, div-zero, div-one}
use qemu_devices_and_drivers.Base.{zero, suc, ◌-◌, ◌^◌, true, false, fault, ◌≡◌, ◌↔◌, arith, ◌==◌}
use qemu_devices_and_drivers.Words.Int.{ℤ, pos, negsuc, fits32, magnitude, ◌/ℤ◌}
use qemu_devices_and_drivers.Mathaccel.Hw.{SqEntry, math_op_div}
use qemu_devices_and_drivers.Mathaccel.Compute.{execute_operation, complete}

complete_fault_iff : (cmd : SqEntry) (z : ℤ) → (complete cmd z ≡ fault) ↔ (fits32 z ≡ false)
complete_fault_iff cmd z = ground arith

abbrev pub int32_min : ℤ
int32_min = negsuc (2 ^ 31 - 1)

quotient_fits :
    (a b : ℤ)
    → fits32 a ≡ true
    → fits32 b ≡ true
    → (magnitude b == 0) ≡ false
    → (fits32 (a /ℤ b) ≡ false) ↔ ((a ≡ int32_min) × (b ≡ negsuc 0))
unfolding ◌/ℤ◌
quotient_fits (pos a) (pos b) ha hb nb = ground (arith, div-le_self a b, div-zero a)
quotient_fits (pos a) (negsuc b) ha hb nb = ground (arith, div-le_self a (suc b), div-zero a)
quotient_fits (negsuc a) (pos b) ha hb nb = ground (arith, div-le_self (suc a) b, div-zero (suc a))
quotient_fits (negsuc a) (negsuc zero) ha hb nb = ground (arith, div-one (suc a), div-zero (suc a))
quotient_fits (negsuc a) (negsuc (suc b)) ha hb nb =
    ground (
      arith,
      div-lt_self {n = suc a} {k = suc (suc b)} (omega arith) (omega arith),
      div-zero (suc a),
    )

-- A division of two `int`s by a number other than 0 is undefined, and on the usual hardware traps,
-- exactly when the least `int` is divided by -1.
execute_operation_div_fault_iff :
    (cmd : SqEntry)
    → cmd.opcode ≡ math_op_div
    → fits32 cmd.arg_a ≡ true
    → fits32 cmd.arg_b ≡ true
    → (magnitude cmd.arg_b == 0) ≡ false
    → (execute_operation cmd ≡ fault) ↔ ((cmd.arg_a ≡ int32_min) × (cmd.arg_b ≡ negsuc 0))
unfolding execute_operation
execute_operation_div_fault_iff cmd o ha hb nb =
    rw (o, nb)
      (ground (
        arith,
        complete_fault_iff cmd (cmd.arg_a /ℤ cmd.arg_b),
        quotient_fits cmd.arg_a cmd.arg_b ha hb nb,
      ))
