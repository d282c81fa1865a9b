-- ===== src/Tests/Loop.antt =====
-- The theorems of the LED grid's event loop at concrete inputs: a client in the first slot turns an LED
-- on, and then the compositor tells that a frame is done.
use qemu_devices_and_drivers.Base.{
  ℕ, zero, suc, ◌*◌, ◌≢◌, true, false, ◌==◌, if◌then◌else◌, none, List, [], ◌∷◌, ◌++◌, get_or, done,
  IfDone, ◌≡◌, refl, arith,
}
use qemu_devices_and_drivers.Protocol.{LedCommand, cmd_on}
use qemu_devices_and_drivers.Grid.{GridRead, read_error, read_command}
use qemu_devices_and_drivers.Grid.Render.{pixel_of, led_circle}
use qemu_devices_and_drivers.Grid.Render.Discs.{covers, address}
use qemu_devices_and_drivers.Grid.Window.{frame_done}
use qemu_devices_and_drivers.Grid.Eventloop.{
  GridProgram, ReadySockets, poll_interrupted, poll_ready, Turn, running, wayland_client_run_loop,
}
use qemu_devices_and_drivers.Grid.Eventloop.Kept.{IsKept, wayland_client_run_loop-IsKept}
use qemu_devices_and_drivers.Grid.Eventloop.Shown.{led_after, wayland_client_run_loop-led}
use qemu_devices_and_drivers.Tests.Grid.{server, server-IsServer}
use qemu_devices_and_drivers.Tests.Screen.{
  shown, window, window-IsRoomy, leds_off, no_memory, front_first,
}

abbrev program : GridProgram
program = record { window = shown; server = server }

abbrev turn_on_red : LedCommand
turn_on_red = record {
  cmd = cmd_on;
  led_id = 0;
  color = record { c0 = 255; c1 = 0; c2 = 0; c3 = 255 };
}

abbrev first_reads : ℕ → GridRead
first_reads zero = read_command turn_on_red
first_reads (suc j) = read_error

abbrev from_client : ReadySockets
from_client = record {
  wayland_revents = 0;
  read_fails = false;
  dispatched = [];
  dispatch_fails = false;
  server_revents = 0;
  accepted = none;
  revents = 1 ∷ [];
  reads = first_reads;
}

abbrev frame_is_done : ReadySockets
frame_is_done = record from_client {
  wayland_revents = 1;
  dispatched = frame_done no_memory ∷ [];
  revents = [];
}

only_first : (k : ℕ) → k ≢ 0 → get_or from_client.revents k 0 ≡ 0
only_first zero n = absurd (n refl)
only_first (suc k) n = refl

centre_covered : covers (led_circle window leds_off 0) 40 43 ≡ true
unfolding led_circle
centre_covered = refl

shown_example :
    (p' : GridProgram) × (wayland_client_run_loop
        (record { queued = []; poll = poll_ready from_client }
          ∷ record { queued = []; poll = poll_ready frame_is_done }
          ∷ [])
        (program, running)
      ≡ done (p', running))
    × (p'.window.committed ≡ [] ++ 0 ∷ [])
    × (p'.window.memory (address (700 * (650 * 4) * 0) (650 * 4) 43 40)
        ≡ pixel_of (
            if (led_after program turn_on_red).on == 0
            then leds_off.off_color
            else (led_after program turn_on_red).color))
shown_example =
    wayland_client_run_loop-led from_client frame_is_done 0 7 1 turn_on_red no_memory program 0 40
      43 window-IsRoomy
      (record {
        no_wayland = refl;
        no_connection = refl;
        readable = refl;
        others_idle = only_first;
        sent = refl;
      })
      (record {
        ready = refl;
        reads = refl;
        event = refl;
        dispatches = refl;
        no_connection = refl;
        clients_idle = λ k. refl;
      })
      refl (omega arith) refl (omega arith) refl
      (record { initialized = refl; settled = refl; has_memory = refl }) front_first refl
      (omega arith) (omega arith) (omega arith) (omega arith) refl centre_covered

abbrev turns : List Turn
turns =
    record { queued = []; poll = poll_interrupted }
    ∷ record { queued = []; poll = poll_ready from_client }
    ∷ record { queued = []; poll = poll_ready frame_is_done }
    ∷ []

kept_example : IfDone IsKept (wayland_client_run_loop turns (program, running))
kept_example =
    wayland_client_run_loop-IsKept turns program running
      (record { server_kept = server-IsServer; shut_down = tt })
