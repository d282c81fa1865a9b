-- ===== src/Tests.antt =====
-- The theorems at concrete inputs.
mod Lux
mod Mathaccel
mod Drivers
mod Grid
mod Timer
mod Accel
mod Screen
mod Cdev
mod Clients
mod Loop
mod Hammer
