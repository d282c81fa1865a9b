-- ===== src/Lib.antt =====
-- qemu-devices-and-drivers: PCI devices for QEMU, each a process that serves libvfio-user, and the
-- Linux drivers for them. The development models the devices and the drivers that run against them.
--
-- Base: shared names, tests on numbers, arrays as lists. Words: C's fixed-width words, bit by bit,
--   masks, and signed integers.
-- Protocol: qemu-devices/led/include/protocol.h, the messages between the Lux device and the grid.
-- Lux: qemu-devices/lux, a device with two functions. Device: its registers (include/device.h and
--   hw.h). Led: the pins (led.c). Bar0, Bar1: the registers of function 0 (f0_bar0.c, f0_bar1.c).
--   Mgmt: interrupts and timer of function 1 (f1_bar0.c, timer.c, irq.c). Events: what the LED grid
--   sends (led.c) and the accesses of the guest. Eventloop: device_run_eventloop (device.c), where
--   each turn takes what poll, the clock, libvfio-user and the LED socket give.
-- Mathaccel: qemu-devices/mathaccel. Hw: registers and rings (its headers, and hw.h and uapi.h of
--   qemu-drivers/mathaccel/include). Compute and Dma: compute.c and dma.c. Fsm: fsm.c with the loop
--   of compute.c, which dispatch each other. Bar: bar.c and on_device_reset of setup.c.
-- Drivers: the drivers of qemu-drivers/led-gpio, run against the Lux device. Gpio: the chip of
--   lux-gpio-chip.c over function 0. Irq: the interrupt chip of lux-irq.c, and Clockevent: the clock
--   event device of lux-timer-core.c, over function 1. Timer: the alarms of user programs, the file
--   operations of lux-timer-fops.c with the state of include/lux.h, and the interrupt, the work and
--   the clock source of lux-timer-core.c. Its queue of deadlines is a red-black tree whose
--   rebalancing is an argument, the kernel's library. Mathaccel: the driver of qemu-drivers/mathaccel
--   over the accelerator: Drivers/Mathaccel.antt has device.c, dma.c and the interrupt handler,
--   Completion has the rest of irq.c and kthread.c, and Char has char.c. Shared links the
--   driver's mapping of the rings with the device's DMA.
--   Cdev: the LED file of lux-cdev.c, over function 0, and Leds: the LEDs of lux-led.c and
--   lux-led-mc.c. What happens while a write of the LED file sleeps is an argument. Edu: the driver of
--   qemu-drivers/pci-driver, over an argument for QEMU's edu device.
-- Grid: the program of qemu-devices/led, which shows the LEDs. Grid.antt is its server (protocol.c),
--   whose socket the Lux device and the window itself write commands to. Render: the picture that
--   render.c draws. Pointer: the clicks and keys of seat.c. Window: the shared buffers of buffer.c
--   and the frames of wayland.c, where the compositor's messages are events. Eventloop: the loop of
--   wayland.c over the sockets of Wayland, of the server and of its clients.
-- Clients: user-clients, the programs that use the devices. Font is font.h, and Print is the program
--   of print-to-led-pwrite.c, run through the LED file on function 0. Hammer: concurrency-hammer.c,
--   which parses a file of operations and counts the answers of the accelerator.
-- Tests: the theorems at concrete inputs.
--
-- A function that changes a device takes its state and returns the new one; -1 is `none` or `false`.
-- What runs out of an array, divides by 0 or overflows an int is undefined in C, and is `fault` or
-- `undefined` here. libvfio-user, the sockets, poll and the clock are arguments.
-- Bounds: the loops over pins and interrupt lines have the 64 and 3 rounds of the code. An event that
-- an action of the accelerator dispatches is never followed by another, so that dispatches nest two
-- deep. The loop over its submission ring is given a number of rounds: more than there are entries
-- waiting is enough when both ends are slots of the ring. The loop of the timer's work is given a
-- number of rounds too: more than there are alarms is enough when none is periodic. 32 rounds are
-- enough for the loop over the pending interrupts, one for each bit of the register. The pictures are
-- for windows of 8 to 8192 pixels each way, where no square of a distance leaves an int, whose width is
-- in sixteenths, rounded down, not larger than their height: the radius of a circle is a sixteenth of
-- the width, so that in a landscape window the circles of different rows overlap. The file of
-- operations of the hammer has fewer than 2^30 lines. The waits and sleeps of the LED file and of the
-- program that prints on it are arguments that always return: that they end is assumed.
-- Not modelled: the setup of regions, sockets, kernel objects and Wayland objects, floating point
-- statistics, threads, and the programs for users that only call the drivers and print.
pub mod Base
pub mod Words
pub mod Protocol
pub mod Lux
pub mod Mathaccel
pub mod Drivers
pub mod Grid
pub mod Tests
pub mod Clients
