-- ===== src/Lux.antt =====
-- qemu-devices/lux: the LuxPCIe device, function 0 (GPIO and smart LEDs) and function 1
-- (interrupt controller and timer).
pub mod Device
pub mod Led
pub mod Bar0
pub mod Bar1
pub mod Mgmt
pub mod Events
pub mod Eventloop
