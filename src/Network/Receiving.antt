-- ===== src/Network/Receiving.antt =====
-- What `network_rcv` of network_client.c can do to the ring of received commands.
use virtual_force.Prelude.{
  ℕ, ◌≡◌, refl, arith, true, false, ◌==◌, List, [], ◌∷◌, ◌⊎◌, inl, inr, Bool-cases,
}
use virtual_force.Memory.{Mem, memcpy, zeroed}
use virtual_force.Buffer.{is_buff_full, push_circle_buff_item}
use virtual_force.Buffer.Single.{IsIdle, not_full}
use virtual_force.Network.{
  Net, Fread, Receive, established, client_buff_size, network_rcv, Received, ReadData, read_data,
  Loop, read_loop, Pid, Fork,
}
use virtual_force.Network.Read.{read_data_whole}

-- the network state after the push of the command at `p`
abbrev pub with_command : Net → Mem → Net
with_command net p =
    let r = push_circle_buff_item net.local_buff_info net.local_buff p in
    record net { local_buff_info = r.info; local_buff = r.buff }

-- While the PC is connected, a whole command goes to an empty ring.
pub rcv_delivers :
    (os : Receive) (pid : Pid) (net : Net) (r : Fread) (rest : List Fread)
    → IsIdle net.local_buff_info
    → os.tcpi_state ≡ established
    → os.reads ≡ r ∷ rest
    → r.count ≡ client_buff_size
    → network_rcv os pid net
      ≡ Received.returned pid (with_command net (memcpy zeroed 0 r.data_read 0 client_buff_size)) []
unfolding network_rcv
rcv_delivers os pid net r rest v up reads whole =
    rw (connected, not_full v, reads, read_data_whole r rest net whole)
  where
    connected : (os.tcpi_state == established) ≡ true
    connected = ground arith

-- What `read_data` returns with: the network state as it was, or with one command more.
abbrev pub Reads : Net → ReadData → Type 0
Reads net ReadData.waiting = Unit {0}
Reads net ReadData.exits = Unit {0}
Reads net (ReadData.failed n) = n ≡ net
Reads net (ReadData.pushed n) = (p : Mem) × (n ≡ with_command net p)

pub read_data_lem : (reads : List Fread) (net : Net) (len : ℕ) → Reads net (read_data reads net len)
unfolding read_data
read_data_lem reads net len = go (read_loop reads len zeroed) refl
  where
    go : (l : Loop) → read_loop reads len zeroed ≡ l → Reads net (read_data reads net len)
    go Loop.waiting e = rw (e, read_data) tt
    go Loop.exits e = rw (e, read_data) tt
    go (Loop.ended missing buffer rest) e = elim (Bool-cases (missing == 0)) [
      | inl z ↦ rw (e, read_data, z) (buffer, refl)
      | inr z ↦ rw (e, read_data, z) refl
    ]

-- What `network_rcv` returns with: the ring as it was, or with one command more.
abbrev pub Receives : Net → Received → Type 0
Receives net (Received.returned pid n calls) =
    ((n.local_buff_info ≡ net.local_buff_info) × (n.local_buff ≡ net.local_buff))
    ⊎ ((p : Mem) × (n ≡ with_command net p))
Receives net r = Unit {0}

pub network_rcv_lem : (os : Receive) (pid : Pid) (net : Net) → Receives net (network_rcv os pid net)
unfolding network_rcv
network_rcv_lem os pid net = elim (Bool-cases (os.tcpi_state == established)) [
  | inl up ↦ elim (Bool-cases (is_buff_full net.local_buff_info)) [
    | inl full ↦ rw (up, full) (inl (refl, refl))
    | inr free ↦
        go up free (read_data os.reads net client_buff_size) refl
          (read_data_lem os.reads net client_buff_size)
  ]
  | inr down ↦ elim (Bool-cases (os.fdopen os.accept)) [
    | inl open_ok ↦ again down open_ok os.fork refl
    | inr failed_open ↦ rw (down, failed_open) tt
  ]
]
  where
    go :
        (os.tcpi_state == established) ≡ true
        → is_buff_full net.local_buff_info ≡ false
        → (r : ReadData) → read_data os.reads net client_buff_size ≡ r
        → Reads net (read_data os.reads net client_buff_size)
        → Receives net (network_rcv os pid net)
    go up free ReadData.waiting e h = rw (up, free, e) tt
    go up free ReadData.exits e h = rw (up, free, e) tt
    go up free (ReadData.failed n) e h =
        rw (up, free, e) (let q = rw e at h in inl (ground arith, ground arith))
    go up free (ReadData.pushed n) e h = rw (up, free, e) (inr (rw e at h))

    again :
        (os.tcpi_state == established) ≡ false
        → os.fdopen os.accept ≡ true
        → (f : Fork) → os.fork ≡ f
        → Receives net (network_rcv os pid net)
    again down ok Fork.child e = rw (down, ok, e) tt
    again down ok (Fork.parent p) e = rw (down, ok, e) (inl (refl, refl))
    again down ok Fork.fork_error e = rw (down, ok, e) (inl (refl, refl))
