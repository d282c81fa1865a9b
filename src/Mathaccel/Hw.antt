-- ===== src/Mathaccel/Hw.antt =====
-- qemu-drivers/mathaccel/include/hw.h and uapi.h, which device and driver share, and
-- qemu-devices/mathaccel/include/device.h and fsm.h.
use qemu_devices_and_drivers.Base.{ℕ}
use qemu_devices_and_drivers.Words.Int.{ℤ, pos}

-- `enum device_state`, without `STATE_INVALID`, which no device is in.
pub data DeviceState : Type 0 where
  state_reset state_ready state_busy state_error : DeviceState

abbrev pub state_value : DeviceState → ℕ
state_value state_reset = 1
state_value state_ready = 2
state_value state_busy = 3
state_value state_error = 4

-- `enum device_event`.
pub data DeviceEvent : Type 0 where
  evt_init evt_submit_job evt_submit_cmd evt_job_done evt_cmd_done evt_error : DeviceEvent
  evt_reset : DeviceEvent

-- `enum register_offsets`.
abbrev pub reg_arg1 : ℕ
reg_arg1 = 0

abbrev pub reg_arg2 : ℕ
reg_arg2 = 4

abbrev pub reg_cmd : ℕ
reg_cmd = 8

abbrev pub reg_status : ℕ
reg_status = 12

abbrev pub reg_flags : ℕ
reg_flags = 16

abbrev pub reg_dma_sq_base_lower : ℕ
reg_dma_sq_base_lower = 24

abbrev pub reg_dma_sq_base_upper : ℕ
reg_dma_sq_base_upper = 28

abbrev pub reg_dma_sq_head : ℕ
reg_dma_sq_head = 32

abbrev pub reg_dma_sq_tail : ℕ
reg_dma_sq_tail = 36

abbrev pub reg_dma_cq_base_lower : ℕ
reg_dma_cq_base_lower = 40

abbrev pub reg_dma_cq_base_upper : ℕ
reg_dma_cq_base_upper = 44

abbrev pub reg_dma_cq_head : ℕ
reg_dma_cq_head = 48

abbrev pub reg_dma_cq_tail : ℕ
reg_dma_cq_tail = 52

abbrev pub reg_dma_ring_size : ℕ
reg_dma_ring_size = 56

abbrev pub reg_irq_cause : ℕ
reg_irq_cause = 60

abbrev pub reg_error_cause : ℕ
reg_error_cause = 64

abbrev pub reg_offset_max : ℕ
reg_offset_max = 64

-- `enum device_flags`.
abbrev pub flag_int_enabled : ℕ
flag_int_enabled = 1

abbrev pub flag_dma_enabled : ℕ
flag_dma_enabled = 2

abbrev pub flag_mask : ℕ
flag_mask = 3

-- `enum irq_cause`.
abbrev pub irq_cause_job_done : ℕ
irq_cause_job_done = 1

abbrev pub irq_cause_cmd_done : ℕ
irq_cause_cmd_done = 2

abbrev pub irq_cause_error : ℕ
irq_cause_error = 4

-- `enum error_cause`.
abbrev pub err_cause_dma_read : ℕ
err_cause_dma_read = 1

abbrev pub err_cause_dma_write : ℕ
err_cause_dma_write = 2

abbrev pub err_cause_dma_bad_queue : ℕ
err_cause_dma_bad_queue = 4

abbrev pub err_cause_dma_disabled : ℕ
err_cause_dma_disabled = 8

abbrev pub err_cause_cmd_unkown : ℕ
err_cause_cmd_unkown = 16

abbrev pub err_cause_cmd_exec : ℕ
err_cause_cmd_exec = 32

-- `enum math_op`.
abbrev pub math_op_add : ℕ
math_op_add = 0

abbrev pub math_op_sub : ℕ
math_op_sub = 1

abbrev pub math_op_mul : ℕ
math_op_mul = 2

abbrev pub math_op_div : ℕ
math_op_div = 3

abbrev pub math_op_count : ℕ
math_op_count = 4

-- `enum completion_status`.
abbrev pub completion_success : ℕ
completion_success = 1

abbrev pub completion_error_unkown_cmd : ℕ
completion_error_unkown_cmd = 2

abbrev pub completion_error_div_by_zero : ℕ
completion_error_div_by_zero = 4

-- `struct math_sq_entry` and `struct math_cq_entry`, of 16 and 24 bytes.
pub record SqEntry : Type 0 where
  pub opcode : ℕ
  pub cmd_id : ℕ
  pub arg_a : ℤ
  pub arg_b : ℤ

pub record CqEntry : Type 0 where
  pub cmd_id : ℕ
  pub status : ℕ
  pub result : ℤ
  pub valid : ℕ

abbrev pub sq_entry_size : ℕ
sq_entry_size = 16

abbrev pub cq_entry_size : ℕ
cq_entry_size = 24

-- `struct math_device`; `args` is an array of two.
pub record MathDevice : Type 0 where
  pub cmd : ℕ
  pub arg_a : ℤ
  pub arg_b : ℤ
  pub state : DeviceState
  pub flags : ℕ
  pub irq_cause : ℕ
  pub error_cause : ℕ
  pub sq_base_addr : ℕ
  pub sq_head : ℕ
  pub sq_tail : ℕ
  pub cq_base_addr : ℕ
  pub cq_head : ℕ
  pub cq_tail : ℕ
  pub ring_size : ℕ

-- `MATH_DEVICE_DEFAULT_INIT`.
unfoldable pub math_device_default_init : MathDevice
math_device_default_init = record {
  cmd = 0;
  arg_a = pos 0;
  arg_b = pos 0;
  state = state_reset;
  flags = 0;
  irq_cause = 0;
  error_cause = 0;
  sq_base_addr = 0;
  sq_head = 0;
  sq_tail = 0;
  cq_base_addr = 0;
  cq_head = 0;
  cq_tail = 0;
  ring_size = 0;
}

-- The device, the guest's memory, and the number of interrupts triggered.
pub record Machine (Mem : Type 0) : Type 0 where
  pub dev : MathDevice
  pub memory : Mem
  pub irqs : ℕ

-- The result of libvfio-user's address translation and copy: the entry, or a negative number
-- whose magnitude is given.
pub data Fetched : Type 0 where
  fetched : SqEntry → Fetched
  fetch_failed : ℕ → Fetched

pub data Stored (Mem : Type 0) : Type 0 where
  stored : Mem → Stored Mem
  store_failed : ℕ → Stored Mem

-- What the device uses of libvfio-user for DMA: `vfu_addr_to_sgl`, `vfu_sgl_get`, a copy and
-- `vfu_sgl_put`, for one entry at a guest address.
pub record GuestDma (Mem : Type 0) : Type 0 where
  pub fetch : Mem → ℕ → Fetched
  pub store : Mem → ℕ → CqEntry → Stored Mem

-- An `int` result: 0, or minus the number.
pub data Ret : Type 0 where
  ok : Ret
  failed : ℕ → Ret

abbrev pub einval : ℕ
einval = 22

abbrev pub eagain : ℕ
eagain = 11

-- A computation of the device: it returns, it runs into undefined behaviour of C, or the rounds
-- given to its loop are used up.
pub data Result (A : Type 0) : Type 0 where
  returned : A → Result A
  undefined : Result A
  unfinished : Result A
