-- ===== src/Grid/Eventloop.antt =====
-- The event loop of qemu-devices/led/wayland.c: the window and the server of the LED grid, which show
-- and change the same LEDs. What Wayland, poll and the sockets give stands in the arguments. The LEDs
-- are those of the server; the window is given them before it handles events.
pub mod Kept
pub mod Shown
pub mod Turns
use qemu_devices_and_drivers.Base.{
  ℕ, Bool, true, false, ◌==◌, if◌then◌else◌, Option, List, [], ◌∷◌, get_or, Outcome, done, bind,
  for_range,
}
use qemu_devices_and_drivers.Grid.{
  PollFd, free_slot, client, max_client_connections, Server, protocol_accept_connection, GridRead,
  protocol_handle_command,
}
use qemu_devices_and_drivers.Grid.Window.{WlClient, WlEvent, handle_all}

-- `struct wayland_client` and `struct protocol_state`.
pub record GridProgram : Type 0 where
  pub window : WlClient
  pub server : Server

-- The window with the LEDs of the grid.
abbrev pub lit : GridProgram → WlClient
lit p = record p.window { led_grid = record p.window.led_grid { leds = p.server.leds } }

-- What poll found, and what the calls give that follow: whether the events of Wayland can be read,
-- the events that are dispatched and whether that fails in the end, the connection that is accepted,
-- and what each client has sent.
pub record ReadySockets : Type 0 where
  pub wayland_revents : ℕ
  pub read_fails : Bool
  pub dispatched : List WlEvent
  pub dispatch_fails : Bool
  pub server_revents : ℕ
  pub accepted : Option ℕ
  pub revents : List ℕ
  pub reads : ℕ → GridRead

unfoldable pub dispatch : GridProgram → List WlEvent → Outcome GridProgram
dispatch p es = bind (handle_all (lit p) es) (λ w. done (record p { window = w }))

-- The case of the Wayland socket. The result -1 is `false`.
unfoldable pub handle_wayland : ReadySockets → GridProgram → Outcome (GridProgram × Bool)
handle_wayland r p =
    if r.wayland_revents == 0
    then done (p, true)
    else if r.read_fails
    then done (p, false)
    else bind (dispatch p r.dispatched)
        (λ p'. if r.dispatch_fails then done (p', false) else done (p', true))

-- The case of the listening socket.
unfoldable pub handle_listening : ReadySockets → GridProgram → GridProgram
handle_listening r p =
    if r.server_revents == 0
    then p
    else record p { server = (protocol_accept_connection p.server r.accepted).0 }

-- The case of a client, with its slot.
abbrev pub serve_slot : ReadySockets → ℕ → GridProgram → PollFd → Outcome GridProgram
serve_slot r j p free_slot = done p
serve_slot r j p (client fd events) =
    if get_or r.revents j 0 == 0
    then done p
    else bind (protocol_handle_command p.server j (get_or r.revents j 0) (r.reads j))
        (λ s. done (record p { server = s.0 }))

unfoldable pub handle_client : ReadySockets → ℕ → GridProgram → Outcome GridProgram
handle_client r j p = serve_slot r j p (get_or p.server.clients j free_slot)

abbrev pub after_wayland : ReadySockets → GridProgram × Bool → Outcome (GridProgram × Bool)
after_wayland r (p, false) = done (p, false)
after_wayland r (p, true) =
    bind (for_range max_client_connections 0 (handle_client r) (handle_listening r p))
      (λ p'. done (p', true))

unfoldable pub wayland_client_handle_ready_sockets :
    ReadySockets → GridProgram → Outcome (GridProgram × Bool)
wayland_client_handle_ready_sockets r p = bind (handle_wayland r p) (after_wayland r)

pub data Poll : Type 0 where
  poll_interrupted : Poll
  poll_error : Poll
  poll_none : Poll
  poll_ready : ReadySockets → Poll

-- A turn: the events that are already in the queue, and what poll gives then.
pub record Turn : Type 0 where
  pub queued : List WlEvent
  pub poll : Poll

-- Where the loop is after some turns: it still runs, or it has returned -1 or 0.
pub data Loop : Type 0 where
  running : Loop
  returned_error : Loop
  returned_zero : Loop

abbrev pub after_ready : GridProgram × Bool → GridProgram × Loop
after_ready (p, false) = (p, returned_error)
after_ready (p, true) = if p.window.shutting_down then (p, returned_zero) else (p, running)

abbrev pub after_poll : Poll → GridProgram → Outcome (GridProgram × Loop)
after_poll poll_interrupted p = done (p, running)
after_poll poll_error p = done (p, returned_error)
after_poll poll_none p = done (p, running)
after_poll (poll_ready r) p =
    bind (wayland_client_handle_ready_sockets r p) (λ q. done (after_ready q))

unfoldable pub turn : Turn → GridProgram → Outcome (GridProgram × Loop)
turn t p = bind (dispatch p t.queued) (after_poll t.poll)

-- The loop over these turns, until it returns.
pub wayland_client_run_loop : List Turn → GridProgram × Loop → Outcome (GridProgram × Loop)
wayland_client_run_loop [] s = done s
wayland_client_run_loop (t ∷ ts) (p, returned_error) = done (p, returned_error)
wayland_client_run_loop (t ∷ ts) (p, returned_zero) = done (p, returned_zero)
wayland_client_run_loop (t ∷ ts) (p, running) = bind (turn t p) (wayland_client_run_loop ts)
