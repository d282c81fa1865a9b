-- ===== src/Grid/Connections.antt =====
-- The connections of the LED grid's server.
use qemu_devices_and_drivers.Base.{
  ℕ, zero, suc, ◌+◌, ◌≤◌, ◌<◌, Bool, true, false, ◌==◌, ltb, if◌then◌else◌, Option, none, some,
  List, [], ◌∷◌, length, get_or, set, length-set, Outcome, done, fault, ◌≡◌, refl, ap, ◌∙◌, ◌&&◌,
  ◌||◌, arith, ◌⊎◌, inl, inr, ap₂, ==_iff, ==_ne,
}
use qemu_devices_and_drivers.Protocol.{LedCommand}
use qemu_devices_and_drivers.Grid.{
  Server, PollFd, free_slot, client, max_client_connections, pollin, take_slot,
  protocol_accept_connection, protocol_handle_command, GridRead, read_error, read_command,
  read_bytes, is_error, is_end, after_checks, run_command, pollhup, pollnval, pollerr, has,
}

-- The number of slots that hold a client.
abbrev pub taken_by : PollFd → ℕ
taken_by free_slot = 0
taken_by (client n e) = 1

abbrev pub taken : List PollFd → ℕ
taken [] = 0
taken (c ∷ rest) = taken_by c + taken rest

-- The server has its ten slots, and counts the clients in them.
pub record IsServer (s : Server) : Type 0 where
  pub slots : length s.clients ≡ max_client_connections
  pub counted : s.conn_nr ≡ taken s.clients

taken-le : (cs : List PollFd) → taken cs ≤ length cs
taken-le [] = omega arith
taken-le (free_slot ∷ cs) = omega (arith, taken-le cs)
taken-le (client n e ∷ cs) = omega (arith, taken-le cs)

-- The place of the first free slot.
abbrev pub first_free : List PollFd → ℕ
first_free [] = 0
first_free (free_slot ∷ cs) = 0
first_free (client n e ∷ cs) = suc (first_free cs)

-- Taking a slot takes one more, and fails when all are taken.
abbrev Took : ℕ → List PollFd → Option (List PollFd) → Type 0
Took new_fd cs none = taken cs ≡ length cs
Took new_fd cs (some cs') =
    (taken cs' ≡ suc (taken cs))
    × (length cs' ≡ length cs)
    × (taken cs < length cs)
    × (cs' ≡ set cs (first_free cs) (client new_fd pollin))
    × (get_or cs (first_free cs) free_slot ≡ free_slot)
    × (first_free cs < length cs)

take_slot-Took : (cs : List PollFd) (new_fd : ℕ) → Took new_fd cs (take_slot cs new_fd)
unfolding take_slot
take_slot-Took [] new_fd = refl
take_slot-Took (free_slot ∷ cs) new_fd =
    (omega arith, refl, omega (arith, taken-le cs), refl, refl, omega arith)
take_slot-Took (client n e ∷ cs) new_fd = step (take_slot cs new_fd) (take_slot-Took cs new_fd)
  where
    step :
        (o : Option (List PollFd))
        → Took new_fd cs o
        → Took new_fd
            (client n e ∷ cs)
            (elim o [ none ↦ none | some rest' ↦ some (client n e ∷ rest') ])
    step none k = omega (arith, k)
    step (some cs') k = (
      omega (arith, k.0),
      ap suc k.1,
      omega (arith, k.2),
      ap (λ r. client n e ∷ r) k.3,
      k.4,
      omega (arith, k.5),
    )

-- A server with a free slot puts a new client, which it watches for input, into the first free one,
-- leaves the other slots alone, and counts it. A server whose ten slots are taken accepts the
-- connection all the same, and keeps nothing of it. Both stay well-formed.
pub protocol_accept_connection-IsServer :
    (s : Server) (new_fd : ℕ)
    → IsServer s
    → let r = protocol_accept_connection s (some new_fd) in
      IsServer r.0
      × (r.1 ≡ some new_fd)
      × (r.0 ≡ (
          if taken s.clients == max_client_connections then s else record s {
            clients = set s.clients (first_free s.clients) (client new_fd pollin);
            conn_nr = suc (taken s.clients);
          }))
      × ((taken s.clients ≡ max_client_connections)
          ⊎ ((first_free s.clients < max_client_connections)
              × (get_or s.clients (first_free s.clients) free_slot ≡ free_slot)))
unfolding protocol_accept_connection
protocol_accept_connection-IsServer s new_fd v =
    rw (not_above s.conn_nr s.clients v.counted v.slots)
      (step (take_slot s.clients new_fd) (take_slot-Took s.clients new_fd))
  where
    not_above :
        (n : ℕ) (cs : List PollFd)
        → n ≡ taken cs
        → length cs ≡ max_client_connections
        → ltb max_client_connections n ≡ false
    not_above n cs e l = ground (arith, taken-le cs)

    step :
        (o : Option (List PollFd))
        → Took new_fd s.clients o
        → let r : Server × Option ℕ = elim o [
          | none ↦ (s, some new_fd)
          | some clients' ↦ (record s { clients = clients'; conn_nr = s.conn_nr + 1 }, some new_fd)
        ] in
          IsServer r.0
          × (r.1 ≡ some new_fd)
          × (r.0 ≡ (
              if taken s.clients == max_client_connections then s else record s {
                clients = set s.clients (first_free s.clients) (client new_fd pollin);
                conn_nr = suc (taken s.clients);
              }))
          × ((taken s.clients ≡ max_client_connections)
              ⊎ ((first_free s.clients < max_client_connections)
                  × (get_or s.clients (first_free s.clients) free_slot ≡ free_slot)))
    step none k =
        let full : taken s.clients ≡ max_client_connections = omega (arith, k, v.slots) in
        (v, refl, rw ((==_iff (taken s.clients) 10).1 full) refl, inl full)
    step (some cs') k = (
      record { slots = omega (arith, k.1, v.slots); counted = omega (arith, k.0, v.counted) },
      refl,
      rw (==_ne (taken s.clients) 10 (λ e. absurd (omega (arith, e, k.2, v.slots)))) (
          ap₂ (λ (cs : List PollFd) (n : ℕ). record s { clients = cs; conn_nr = n }) k.3
            (omega (arith, v.counted))),
      inr (omega (arith, k.5, v.slots), k.4),
    )

taken-set :
    (cs : List PollFd) (j : ℕ)
    → taken cs ≡ taken_by (get_or cs j free_slot) + taken (set cs j free_slot)
taken-set [] j = refl
taken-set (c ∷ cs) zero = omega arith
taken-set (c ∷ cs) (suc j) = omega (arith, taken-set cs j)

-- The server stays well-formed.
abbrev pub ServerKept : Outcome (Server × Bool) → Type 0
ServerKept (done r) = IsServer r.0
ServerKept fault = Unit

if-ServerKept :
    (b : Bool) (x y : Outcome (Server × Bool))
    → ServerKept x
    → ServerKept y
    → ServerKept (if b then x else y)
if-ServerKept true x y p q = p
if-ServerKept false x y p q = q

run_command-ServerKept : (s : Server) (c : LedCommand) → IsServer s → ServerKept (run_command s c)
unfolding run_command
run_command-ServerKept s c v = ground arith

-- Handling what a connected client sends, or its end, keeps the server well-formed: a client that
-- has gone leaves its slot and is counted no more.
pub protocol_handle_command-ServerKept :
    (s : Server) (j revents : ℕ) (r : GridRead)
    → IsServer s
    → taken_by (get_or s.clients j free_slot) ≡ 1
    → ServerKept (protocol_handle_command s j revents r)
unfolding protocol_handle_command
protocol_handle_command-ServerKept s j revents r v c =
    if-ServerKept (is_error r && (has revents pollnval || has revents pollerr)) _ _ v (
      if-ServerKept (revents == 0) _ _ v (
        if-ServerKept (is_end r || has revents pollhup) _ _
          (record {
            slots = length-set s.clients j free_slot ∙ v.slots;
            counted = omega (arith, v.counted, taken-set s.clients j, c);
          })
          (checks r)))
  where
    checks : (r : GridRead) → ServerKept (after_checks s r)
    checks read_error = v
    checks (read_bytes n) = v
    checks (read_command c) = run_command-ServerKept s c v
