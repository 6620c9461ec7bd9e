-- ===== src/Network/Sending.antt =====
-- How network_client.c sends, and how it ends: `network_set` and `network_close`.
use virtual_force.Prelude.{ℕ, ◌==◌, if◌then◌else◌}
use virtual_force.Memory.{Mem}
use virtual_force.Network.{Net, Call, close, established}

-- How `network_set` ends: it hands the bytes to the stream and flushes it, or closes the descriptor
-- and calls `exit(1)`. The result of `fwrite` is an unsigned count, so the test for a failed write
-- does not hold.
pub data Sent : Type 0 where
  exits : Call → Sent
  sent : Mem → ℕ → Sent

unfoldable pub network_set : ℕ → Net → Mem → ℕ → Sent
network_set tcpi_state net buff length =
    if tcpi_state == established then sent buff length else Sent.exits (close net.fd)

-- `network_close`, without the mutex and the conditions, which it destroys
unfoldable pub network_close : Net → Call
network_close net = close net.fd
