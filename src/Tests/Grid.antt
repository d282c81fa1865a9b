-- ===== src/Tests/Grid.antt =====
-- The theorems of the LED grid's server at concrete inputs: one client, in the first slot.
use qemu_devices_and_drivers.Base.{
  suc, set, get_or, ◌⊎◌, ◌<◌, ◌^◌, true, false, ◌==◌, ltb, leb, if◌then◌else◌, [], ◌∷◌, replicate,
  some, done, fault, ◌≡◌, refl,
}
use qemu_devices_and_drivers.Protocol.{black, LedCommand, cmd_on}
use qemu_devices_and_drivers.Grid.{
  Server, free_slot, client, no_led, grid_led_nr, max_client_connections, pollin, read_command,
  protocol_accept_connection, protocol_handle_command,
}
use qemu_devices_and_drivers.Grid.Connections.{
  first_free, taken, IsServer, protocol_accept_connection-IsServer,
}
use qemu_devices_and_drivers.Grid.Commands.{is_known, answer, protocol_handle_command_lem}

abbrev pub server : Server
server = record {
  conn_nr = 1;
  clients = client 7 pollin ∷ replicate 9 free_slot;
  leds = replicate 64 no_led;
  events_sent = [];
}

pub server-IsServer : IsServer server
server-IsServer = record { slots = refl; counted = refl }

accept_example :
    IsServer (protocol_accept_connection server (some 8)).0
    × ((protocol_accept_connection server (some 8)).1 ≡ some 8)
    × ((protocol_accept_connection server (some 8)).0 ≡ (
        if taken server.clients == max_client_connections then server else record server {
          clients = set server.clients (first_free server.clients) (client 8 pollin);
          conn_nr = suc (taken server.clients);
        }))
    × ((taken server.clients ≡ max_client_connections)
        ⊎ ((first_free server.clients < max_client_connections)
            × (get_or server.clients (first_free server.clients) free_slot ≡ free_slot)))
accept_example = protocol_accept_connection-IsServer server 8 server-IsServer

abbrev turn_on : LedCommand
turn_on = record { cmd = cmd_on; led_id = 3; color = black }

grid_command_example : protocol_handle_command server 0 pollin (read_command turn_on) ≡ (
    if ltb 3 grid_led_nr
    then (if is_known cmd_on then done (answer server turn_on, true) else done (server, false))
    else if leb (2 ^ 31) 3
    then fault
    else done (server, false))
grid_command_example = protocol_handle_command_lem server 0 pollin turn_on refl refl
