-- ===== src/Drivers.antt =====
-- qemu-drivers: the Linux drivers of the devices, run against the models of the devices.
pub mod Gpio
pub mod Irq
pub mod Clockevent
pub mod Timer
pub mod Mathaccel
pub mod Cdev
pub mod Leds
pub mod Edu
