-- ===== src/Grid/Eventloop/Shown.antt =====
-- From a command to the picture: a turn of the event loop of qemu-devices/led/wayland.c that takes a
-- command from a client, and one that draws the next frame.
use qemu_devices_and_drivers.Base.{
  ℕ, ◌*◌, ◌/◌, ◌<◌, true, false, ◌==◌, if◌then◌else◌, Option, none, some, [], ◌∷◌, ◌++◌, get_or,
  length, get_or-set_self, done, bind, for_range-idle, ◌≡◌, refl, ap, ◌∙◌, arith,
}
use qemu_devices_and_drivers.Protocol.{LedCommand}
use qemu_devices_and_drivers.Grid.{
  Led, no_led, grid_led_nr, free_slot, client, max_client_connections,
}
use qemu_devices_and_drivers.Grid.Commands.{is_known, commanded}
use qemu_devices_and_drivers.Grid.Render.{led_circle, pixel_of, get_front_buffer_index}
use qemu_devices_and_drivers.Grid.Render.Discs.{covers, address}
use qemu_devices_and_drivers.Grid.Render.Picture.{IsRoomy, cell}
use qemu_devices_and_drivers.Grid.Render.Draw.{picture_pixel}
use qemu_devices_and_drivers.Grid.Window.{
  Answers, WlClient, frame_done, handle, handle_all, wl_callback_done_handler,
}
use qemu_devices_and_drivers.Grid.Window.Redraw.{IsShown, framed, wayland_client_redraw_lem}
use qemu_devices_and_drivers.Grid.Eventloop.{
  GridProgram, lit, ReadySockets, dispatch, handle_wayland, handle_client, poll_ready, running,
  turn, wayland_client_run_loop,
}
use qemu_devices_and_drivers.Grid.Eventloop.Turns.{
  IsFromClient, answered, handle_client_idle, ready_turn, client_turn,
}

-- Only the compositor is ready, and tells that a frame is done.
pub record IsFrame (r : ReadySockets) (a : Answers) : Type 0 where
  pub ready : (r.wayland_revents == 0) ≡ false
  pub reads : r.read_fails ≡ false
  pub event : r.dispatched ≡ frame_done a ∷ []
  pub dispatches : r.dispatch_fails ≡ false
  pub no_connection : r.server_revents ≡ 0
  pub clients_idle : (k : ℕ) → get_or r.revents k 0 ≡ 0

-- The window as a frame is done, with the LEDs of the grid.
abbrev frame_window : GridProgram → WlClient
frame_window p = record (lit p) { frame_callback = false }

handle_wayland_frame :
    (r : ReadySockets) (a : Answers) (p : GridProgram) (w : WlClient)
    → IsFrame r a
    → wl_callback_done_handler (lit p) a ≡ done w
    → handle_wayland r p ≡ done (record p { window = w }, true)
unfolding handle_wayland dispatch handle_all handle
handle_wayland_frame r a p w frame drawn =
    rw (frame.ready, frame.reads, frame.event, drawn, frame.dispatches) refl

redrawn :
    (c : WlClient) (a : Answers) (idx : ℕ) (roomy : IsRoomy c.render_buffer.dimensions)
    → IsShown c
    → get_front_buffer_index c.render_buffer.busy0 c.render_buffer.busy1 ≡ some idx
    → wl_callback_done_handler c a ≡ done (framed (record c { frame_callback = false }) roomy idx)
unfolding wl_callback_done_handler
redrawn c a idx roomy shown front =
    let c' : WlClient = record c { frame_callback = false } in
    wayland_client_redraw_lem c' a roomy (record {
      initialized = shown.initialized;
      settled = shown.settled;
      has_memory = shown.has_memory;
    })
    ∙ ap (λ o. done (after_front o)) front
  where
    after_front : Option ℕ → WlClient
    after_front none = record c { frame_callback = false }
    after_front (some i) = framed (record c { frame_callback = false }) roomy i

frame_turn :
    (r : ReadySockets) (a : Answers) (p : GridProgram) (idx : ℕ)
    (roomy : IsRoomy p.window.render_buffer.dimensions)
    → IsFrame r a
    → IsShown p.window
    → get_front_buffer_index p.window.render_buffer.busy0 p.window.render_buffer.busy1 ≡ some idx
    → p.window.shutting_down ≡ false
    → turn (record { queued = []; poll = poll_ready r }) p
      ≡ done (record p { window = framed (frame_window p) roomy idx }, running)
frame_turn r a p idx roomy frame shown front runs =
    let q : GridProgram = record p { window = framed (frame_window p) roomy idx } in
    ready_turn r p q q
      (handle_wayland_frame r a (record p { window = lit p }) (framed (frame_window p) roomy idx)
        frame
        (redrawn (lit p) a idx roomy
          (record {
            initialized = shown.initialized;
            settled = shown.settled;
            has_memory = shown.has_memory;
          })
          front))
      frame.no_connection
      (for_range-idle 10 0 (handle_client r) q
        (λ k b l. handle_client_idle r k b (frame.clients_idle k)))
      runs

-- The LED that a command leaves.
abbrev pub led_after : GridProgram → LedCommand → Led
led_after p c = commanded c (get_or p.server.leds c.led_id no_led)

-- A command of a client reaches the screen, in a window of 8 to 8192 pixels each way with
-- width / 16 ≤ height / 16 (rounded down: in wider ones the circles of the LEDs overlap). The window is
-- initialized and mapped, no resize is pending and it is not shutting down, and one of its buffers is
-- free. In one turn of the event loop only a client is ready, and has sent a known command for an LED
-- of the grid, and in the next only the compositor is, and tells that a frame is done: then the buffer
-- is committed, and each point of the window that the LED covers in its cell shows the LED as the
-- command has left it.
pub wayland_client_run_loop-led :
    (r r' : ReadySockets) (j fd events : ℕ) (c : LedCommand) (a : Answers) (p : GridProgram)
    (idx x y : ℕ) (roomy : IsRoomy p.window.render_buffer.dimensions)
    → IsFromClient r j c
    → IsFrame r' a
    → get_or p.server.clients j free_slot ≡ client fd events
    → j < max_client_connections
    → length p.server.leds ≡ grid_led_nr
    → c.led_id < grid_led_nr
    → is_known c.cmd ≡ true
    → IsShown p.window
    → get_front_buffer_index p.window.render_buffer.busy0 p.window.render_buffer.busy1 ≡ some idx
    → p.window.shutting_down ≡ false
    → let dim = p.window.render_buffer.dimensions in
      x < dim.width
      → y < dim.height
      → x / (dim.width / 8) < 8
      → y / (dim.height / 8) < 8
      → cell dim x y ≡ c.led_id
      → covers (led_circle dim p.window.led_grid c.led_id) x y ≡ true
      → (p' : GridProgram) × (wayland_client_run_loop
            (record { queued = []; poll = poll_ready r }
              ∷ record { queued = []; poll = poll_ready r' }
              ∷ [])
            (p, running)
          ≡ done (p', running))
        × (p'.window.committed ≡ p.window.committed ++ idx ∷ [])
        × (p'.window.memory (address (dim.height * (dim.width * 4) * idx) (dim.width * 4) y x)
            ≡ pixel_of (
                if (led_after p c).on == 0
                then p.window.led_grid.off_color
                else (led_after p c).color))
unfolding wayland_client_run_loop led_circle
wayland_client_run_loop-led r r' j fd events c a p idx x y roomy from frame slot lj leds li known
      shown front runs lx ly cx cy here covered =
    let p₁ = answered p c in
    let dim = p.window.render_buffer.dimensions in
    (
      record p₁ { window = framed (frame_window p₁) roomy idx },
      ap (λ o. bind o (wayland_client_run_loop (record { queued = []; poll = poll_ready r' } ∷ [])))
            (client_turn r j fd events c p from slot lj li known runs)
          ∙ ap (λ o. bind o (wayland_client_run_loop []))
              (frame_turn r' a p₁ idx roomy frame
                (record {
                  initialized = shown.initialized;
                  settled = shown.settled;
                  has_memory = shown.has_memory;
                })
                front runs),
      refl,
      picture_pixel dim (lit p₁).led_grid roomy idx p.window.memory x y lx ly cx cy
          ∙ rw
              (
                here,
                covered,
                get_or-set_self p.server.leds c.led_id (led_after p c) no_led
                    (omega (arith, leds, li)),
              )
              refl,
    )
