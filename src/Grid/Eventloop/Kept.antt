-- ===== src/Grid/Eventloop/Kept.antt =====
-- What the event loop of qemu-devices/led/wayland.c keeps, and when it returns.
use qemu_devices_and_drivers.Base.{
  ℕ, Bool, true, false, ◌==◌, if◌then◌else◌, Option, none, some, List, [], ◌∷◌, get_or, Outcome,
  done, fault, for_range, IfDone, bind-IfDone, for_range-IfDone, ◌≡◌, refl, ap, arith, Bool-cases,
  inl, inr,
}
use qemu_devices_and_drivers.Grid.{
  PollFd, free_slot, client, max_client_connections, Server, protocol_accept_connection,
}
use qemu_devices_and_drivers.Grid.Connections.{
  IsServer, taken_by, ServerKept, protocol_accept_connection-IsServer,
  protocol_handle_command-ServerKept,
}
use qemu_devices_and_drivers.Grid.Window.{WlClient, WlEvent, handle_all}
use qemu_devices_and_drivers.Grid.Eventloop.{
  GridProgram, lit, ReadySockets, dispatch, handle_wayland, handle_listening, handle_client,
  serve_slot, after_wayland, wayland_client_handle_ready_sockets, Poll, poll_interrupted,
  poll_error, poll_none, poll_ready, Turn, Loop, running, returned_error, returned_zero,
  after_ready, after_poll, turn, wayland_client_run_loop,
}

abbrev pub HasServer : GridProgram → Type 0
HasServer p = IsServer p.server

-- The server is well-formed, whatever the result is.
abbrev FirstKept : GridProgram × Bool → Type 0
FirstKept q = HasServer q.0

-- After a loop that has returned 0, the window is shutting down.
abbrev Ended : GridProgram × Loop → Type 0
Ended (p, running) = Unit
Ended (p, returned_error) = Unit
Ended (p, returned_zero) = p.window.shutting_down ≡ true

accept-IsServer :
    (s : Server) (accepted : Option ℕ)
    → IsServer s
    → IsServer (protocol_accept_connection s accepted).0
unfolding protocol_accept_connection
accept-IsServer s none v = ground arith
accept-IsServer s (some fd) v = (protocol_accept_connection-IsServer s fd v).0

dispatch-HasServer :
    (p : GridProgram) (es : List WlEvent) → HasServer p → IfDone HasServer (dispatch p es)
unfolding dispatch
dispatch-HasServer p es v =
    bind-IfDone (λ w. Unit) HasServer (handle_all (lit p) es) _ (always (handle_all (lit p) es))
      (λ w _. v)
  where
    always : (o : Outcome WlClient) → IfDone (λ w. Unit) o
    always (done w) = tt
    always fault = tt

handle_listening-HasServer :
    (r : ReadySockets) (p : GridProgram) → HasServer p → HasServer (handle_listening r p)
unfolding handle_listening
handle_listening-HasServer r p v = elim (Bool-cases (r.server_revents == 0)) [
  | inl e ↦ rw e v
  | inr e ↦ rw e (accept-IsServer p.server r.accepted v)
]

handle_client-HasServer :
    (r : ReadySockets) (j : ℕ) (p : GridProgram)
    → HasServer p
    → IfDone HasServer (handle_client r j p)
unfolding handle_client
handle_client-HasServer r j p v = by-slot (get_or p.server.clients j free_slot) refl
  where
    kept : (o : Outcome (Server × Bool)) → ServerKept o → IfDone (λ s. IsServer s.0) o
    kept (done s) h = h
    kept fault h = tt

    by-slot :
        (slot : PollFd)
        → get_or p.server.clients j free_slot ≡ slot
        → IfDone HasServer (serve_slot r j p slot)
    by-slot free_slot e = v
    by-slot (client fd events) e = elim (Bool-cases (get_or r.revents j 0 == 0)) [
      | inl idle ↦ rw idle v
      | inr ready ↦ rw ready (
          bind-IfDone (λ s. IsServer s.0) HasServer _ _
            (kept _ (
              protocol_handle_command-ServerKept p.server j (get_or r.revents j 0) (r.reads j) v
                (ap taken_by e)))
            (λ s h. h))
    ]

handle_wayland-HasServer :
    (r : ReadySockets) (p : GridProgram) → HasServer p → IfDone FirstKept (handle_wayland r p)
unfolding handle_wayland
handle_wayland-HasServer r p v = elim (Bool-cases (r.wayland_revents == 0)) [
  | inl idle ↦ rw idle v
  | inr ready ↦ elim (Bool-cases r.read_fails) [
    | inl fails ↦ rw (ready, fails) v
    | inr reads ↦
        rw (ready, reads)
          (bind-IfDone HasServer FirstKept (dispatch p r.dispatched) _
            (dispatch-HasServer p r.dispatched v) (λ p' h. by-end r.dispatch_fails p' h))
  ]
]
  where
    by-end :
        (fails : Bool) (p' : GridProgram)
        → HasServer p'
        → IfDone FirstKept (if fails then done (p', false) else done (p', true))
    by-end true p' h = h
    by-end false p' h = h

ready_sockets-HasServer :
    (r : ReadySockets) (p : GridProgram)
    → HasServer p
    → IfDone FirstKept (wayland_client_handle_ready_sockets r p)
unfolding wayland_client_handle_ready_sockets
ready_sockets-HasServer r p v =
    bind-IfDone FirstKept FirstKept (handle_wayland r p) (after_wayland r)
      (handle_wayland-HasServer r p v) after
  where
    after : (q : GridProgram × Bool) → HasServer q.0 → IfDone FirstKept (after_wayland r q)
    after (q, false) h = h
    after (q, true) h =
        bind-IfDone HasServer FirstKept
          (for_range max_client_connections 0 (handle_client r) (handle_listening r q)) _
          (for_range-IfDone HasServer 10 0 (handle_client r) (handle_listening r q)
            (handle_listening-HasServer r q h) (handle_client-HasServer r))
          (λ p' h'. h')

-- The loop has a well-formed server, and has returned 0 only if the window is shutting down.
pub record IsKept (s : GridProgram × Loop) : Type 0 where
  pub server_kept : HasServer s.0
  pub shut_down : Ended s

after_ready-IsKept : (q : GridProgram × Bool) → HasServer q.0 → IsKept (after_ready q)
after_ready-IsKept (p, false) v = record { server_kept = v; shut_down = tt }
after_ready-IsKept (p, true) v = by-flag p.window.shutting_down refl
  where
    by-flag :
        (b : Bool)
        → p.window.shutting_down ≡ b
        → IsKept (if b then (p, returned_zero) else (p, running))
    by-flag true e = record { server_kept = v; shut_down = e }
    by-flag false e = record { server_kept = v; shut_down = tt }

after_poll-IsKept :
    (poll : Poll) (p : GridProgram) → HasServer p → IfDone IsKept (after_poll poll p)
after_poll-IsKept poll_interrupted p v = record { server_kept = v; shut_down = tt }
after_poll-IsKept poll_error p v = record { server_kept = v; shut_down = tt }
after_poll-IsKept poll_none p v = record { server_kept = v; shut_down = tt }
after_poll-IsKept (poll_ready r) p v =
    bind-IfDone FirstKept IsKept (wayland_client_handle_ready_sockets r p) _
      (ready_sockets-HasServer r p v) after_ready-IsKept

turn-IsKept : (t : Turn) (p : GridProgram) → HasServer p → IfDone IsKept (turn t p)
unfolding turn
turn-IsKept t p v =
    bind-IfDone HasServer IsKept (dispatch p t.queued) (after_poll t.poll)
      (dispatch-HasServer p t.queued v) (after_poll-IsKept t.poll)

-- Through any turns of the event loop that stay defined, the server keeps its ten slots and counts
-- the clients in them, and the loop returns 0 only when the window is shutting down.
pub wayland_client_run_loop-IsKept :
    (ts : List Turn) (p : GridProgram) (l : Loop)
    → IsKept (p, l)
    → IfDone IsKept (wayland_client_run_loop ts (p, l))
unfolding wayland_client_run_loop
wayland_client_run_loop-IsKept [] p l k = k
wayland_client_run_loop-IsKept (t ∷ ts) p returned_error k = k
wayland_client_run_loop-IsKept (t ∷ ts) p returned_zero k = k
wayland_client_run_loop-IsKept (t ∷ ts) p running k =
    bind-IfDone IsKept IsKept (turn t p) (wayland_client_run_loop ts)
      (turn-IsKept t p k.server_kept) (λ s h. wayland_client_run_loop-IsKept ts s.0 s.1 h)
