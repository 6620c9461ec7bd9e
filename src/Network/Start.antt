-- ===== src/Network/Start.antt =====
-- The start of network_client.c: `network_client_connect` and `network_init`.
use virtual_force.Prelude.{◌≡◌, ◌≢◌, arith, true, false, none, is_set}
use virtual_force.Network.{
  Net, no_net, Sockets, Connected, network_client_connect, network_init, fresh_info,
}

-- If `setsockopt` fails on the descriptor -1, as it does, a connection means that every call
-- succeeded: the listening socket and the accepted one are descriptors, and a stream is open on the
-- latter.
pub connect_lem :
    (os : Sockets) (net : Net) {n : Net}
    → os.setsockopt none ≡ false
    → network_client_connect os net ≡ Connected.connected n
    → (is_set n.sfd ≡ true)
      × (is_set n.fd ≡ true)
      × (n.sfd ≡ os.socket)
      × (n.fd ≡ os.accept)
      × (os.bind ≡ true)
      × (os.listen ≡ true)
      × (os.fdopen n.fd ≡ true)
      × (n.local_buff_info ≡ net.local_buff_info)
unfolding network_client_connect
connect_lem os net bad e = ground arith

-- If `setsockopt` fails on the descriptor -1, as it does, then at the start `exit(0)`, which is meant
-- for a failed `socket`, is never reached, whatever the system calls return; a failed `socket` ends
-- in `exit(1)`.
pub connect_no_socket :
    (os : Sockets)
    → os.setsockopt none ≡ false
    → (network_client_connect os no_net ≢ Connected.exits 0)
      × (network_client_connect (record os { socket = none }) no_net ≡ Connected.exits 1)
unfolding network_client_connect
connect_no_socket os bad = (λ e. ground arith, ground arith)

-- A successful `network_init` leaves the empty ring of the constants in the source.
pub init_ring :
    (os : Sockets) {n : Net}
    → network_init os no_net ≡ Connected.connected n
    → n.local_buff_info ≡ fresh_info
unfolding network_init network_client_connect
init_ring os e = ground arith
