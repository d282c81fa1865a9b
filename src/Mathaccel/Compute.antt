-- ===== src/Mathaccel/Compute.antt =====
-- qemu-devices/mathaccel/compute.c: one operation. An `int` operation whose exact result is not an
-- `int` is undefined.
pub mod Divide
use qemu_devices_and_drivers.Base.{ℕ, ◌==◌, Bool, if◌then◌else◌, Outcome, done, fault}
use qemu_devices_and_drivers.Words.Int.{ℤ, pos, negsuc, ◌+ℤ◌, ◌-ℤ◌, ◌*ℤ◌, ◌/ℤ◌, fits32, magnitude}
use qemu_devices_and_drivers.Mathaccel.Hw.{
  SqEntry, CqEntry, math_op_add, math_op_sub, math_op_mul, math_op_div, completion_success,
  completion_error_unkown_cmd, completion_error_div_by_zero, Ret, ok, failed, einval,
}

abbrev pub complete : SqEntry → ℤ → Outcome (CqEntry × Ret)
complete cmd z =
    if fits32 z
    then done
        (record { cmd_id = cmd.cmd_id; status = completion_success; result = z; valid = 1 }, ok)
    else fault

abbrev reject : SqEntry → ℕ → Outcome (CqEntry × Ret)
reject cmd status =
    done
      (record { cmd_id = cmd.cmd_id; status = status; result = negsuc 0; valid = 1 }, failed einval)

unfoldable pub execute_operation : SqEntry → Outcome (CqEntry × Ret)
execute_operation cmd =
    if cmd.opcode == math_op_add
    then complete cmd (cmd.arg_a +ℤ cmd.arg_b)
    else if cmd.opcode == math_op_sub
    then complete cmd (cmd.arg_a -ℤ cmd.arg_b)
    else if cmd.opcode == math_op_mul
    then complete cmd (cmd.arg_a *ℤ cmd.arg_b)
    else if cmd.opcode == math_op_div
    then (if magnitude cmd.arg_b == 0
        then reject cmd completion_error_div_by_zero
        else complete cmd (cmd.arg_a /ℤ cmd.arg_b))
    else reject cmd completion_error_unkown_cmd
