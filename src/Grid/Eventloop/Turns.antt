-- ===== src/Grid/Eventloop/Turns.antt =====
-- Turns of the event loop of qemu-devices/led/wayland.c, put together from their steps, and one that
-- takes a command from a client.
use qemu_devices_and_drivers.Base.{
  ℕ, ◌<◌, Bool, true, false, if◌then◌else◌, [], get_or, done, bind, for_range, for_range-only, ◌≡◌,
  ◌≢◌, refl, sym, ap, ◌∙◌, arith, lt→ltb, false≢true,
}
use qemu_devices_and_drivers.Protocol.{LedCommand}
use qemu_devices_and_drivers.Grid.{
  grid_led_nr, PollFd, free_slot, client, pollin, max_client_connections, read_command,
}
use qemu_devices_and_drivers.Grid.Commands.{is_known, answer, protocol_handle_command_lem}
use qemu_devices_and_drivers.Grid.Window.{handle_all}
use qemu_devices_and_drivers.Grid.Eventloop.{
  GridProgram, lit, ReadySockets, dispatch, handle_wayland, handle_listening, handle_client,
  serve_slot, after_wayland, wayland_client_handle_ready_sockets, poll_ready, Loop, running,
  returned_zero, after_ready, turn,
}

-- Only the client in slot `j` is ready, and has sent a command.
pub record IsFromClient (r : ReadySockets) (j : ℕ) (c : LedCommand) : Type 0 where
  pub no_wayland : r.wayland_revents ≡ 0
  pub no_connection : r.server_revents ≡ 0
  pub readable : get_or r.revents j 0 ≡ pollin
  pub others_idle : (k : ℕ) → k ≢ j → get_or r.revents k 0 ≡ 0
  pub sent : r.reads j ≡ read_command c

pub handle_client_idle :
    (r : ReadySockets) (k : ℕ) (p : GridProgram)
    → get_or r.revents k 0 ≡ 0
    → handle_client r k p ≡ done p
unfolding handle_client
handle_client_idle r k p idle = by-slot (get_or p.server.clients k free_slot)
  where
    by-slot : (slot : PollFd) → serve_slot r k p slot ≡ done p
    by-slot free_slot = refl
    by-slot (client fd events) = rw idle refl

-- The server that a known command from slot `j` leaves.
abbrev pub answered : GridProgram → LedCommand → GridProgram
answered p c = record p { window = lit p; server = answer p.server c }

handle_client_answers :
    (r : ReadySockets) (j fd events : ℕ) (c : LedCommand) (p : GridProgram)
    → IsFromClient r j c
    → get_or p.server.clients j free_slot ≡ client fd events
    → c.led_id < grid_led_nr
    → is_known c.cmd ≡ true
    → handle_client r j p ≡ done (record p { server = answer p.server c })
unfolding handle_client
handle_client_answers r j fd events c p from slot li known =
    rw
      (
        slot,
        from.readable,
        from.sent,
        protocol_handle_command_lem p.server j pollin c refl refl,
        lt→ltb c.led_id 64 li,
        known,
      )
      refl

handle_wayland_idle :
    (r : ReadySockets) (p : GridProgram)
    → r.wayland_revents ≡ 0
    → handle_wayland r p ≡ done (p, true)
unfolding handle_wayland
handle_wayland_idle r p idle = rw idle refl

pub handle_listening_idle :
    (r : ReadySockets) (p : GridProgram) → r.server_revents ≡ 0 → handle_listening r p ≡ p
unfolding handle_listening
handle_listening_idle r p idle = rw idle refl

after_ready_running :
    (q : GridProgram) → q.window.shutting_down ≡ false → after_ready (q, true) ≡ (q, running)
after_ready_running q runs = by-flag q.window.shutting_down runs
  where
    by-flag :
        (b : Bool)
        → b ≡ false
        → ◌≡◌ {A = GridProgram × Loop} (if b then (q, returned_zero) else (q, running)) (q, running)
    by-flag true e = absurd (false≢true (sym e))
    by-flag false e = refl

-- A turn in which poll finds ready sockets, put together from its steps.
pub ready_turn :
    (r : ReadySockets) (p p' q : GridProgram)
    → handle_wayland r (record p { window = lit p }) ≡ done (p', true)
    → r.server_revents ≡ 0
    → for_range 10 0 (handle_client r) p' ≡ done q
    → q.window.shutting_down ≡ false
    → turn (record { queued = []; poll = poll_ready r }) p ≡ done (q, running)
unfolding turn dispatch handle_all wayland_client_handle_ready_sockets
ready_turn r p p' q wayland no_connection loop runs =
    ap (λ o. bind o (λ b. done (after_ready b)))
      (ap (λ o. bind o (after_wayland r)) wayland
        ∙ ap (λ t. bind (for_range 10 0 (handle_client r) t) (λ b. done (b, true)))
            (handle_listening_idle r p' no_connection)
        ∙ ap (λ o. bind o (λ b. done (b, true))) loop)
    ∙ ap done (after_ready_running q runs)

pub client_turn :
    (r : ReadySockets) (j fd events : ℕ) (c : LedCommand) (p : GridProgram)
    → IsFromClient r j c
    → get_or p.server.clients j free_slot ≡ client fd events
    → j < max_client_connections
    → c.led_id < grid_led_nr
    → is_known c.cmd ≡ true
    → p.window.shutting_down ≡ false
    → turn (record { queued = []; poll = poll_ready r }) p ≡ done (answered p c, running)
client_turn r j fd events c p from slot lj li known runs =
    ready_turn r p (record p { window = lit p }) (answered p c)
      (handle_wayland_idle r (record p { window = lit p }) from.no_wayland) from.no_connection
      (for_range-only 10 0 j (handle_client r) (record p { window = lit p }) (answered p c)
        (omega arith) (omega (arith, lj)) (λ k q n. handle_client_idle r k q (from.others_idle k n))
        (handle_client_answers r j fd events c (record p { window = lit p }) from slot li known))
      runs
