-- ===== src/Mathaccel.antt =====
-- qemu-devices/mathaccel: the math accelerator, a device with a command interface through
-- registers and one through a pair of rings in guest memory.
pub mod Hw
pub mod Compute
pub mod Dma
pub mod Fsm
pub mod Bar
