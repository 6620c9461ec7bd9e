-- ===== src/Threads/Log.antt =====
-- What the two threads put into the ring and take out of it.
use virtual_force.Prelude.{◌≡◌, refl, arith, List, [], ◌∷◌, ◌++◌, ◌==◌, Bool-cases, inl, inr}
use virtual_force.Memory.{Mem, zeroed, bytes}
use virtual_force.Buffer.{pull_circle_buff_item}
use virtual_force.Buffer.Fifo.{Element}
use virtual_force.Network.{
  Net, Fread, Loop, ended, read_loop, ReadData, read_data, client_buff_size,
}
use virtual_force.Network.Receiving.{with_command}
use virtual_force.Threads.{
  Threads, Step, disconnected, connected, producer_locks, finds_full, finds_room, receives,
  receives_nothing, producer_unlocks, consumer_locks, finds_empty, finds_command, pulls,
  consumer_unlocks, Reach, start, later,
}

-- the command that the loop of `read_data` puts together
pub read_bytes : List Fread → Element
read_bytes reads = elim (read_loop reads client_buff_size zeroed) [
  | Loop.waiting ↦ []
  | Loop.exits ↦ []
  | ended missing b rest ↦ bytes b 0 client_buff_size
]

-- The commands that went into the ring, in order, after one step more.
unfoldable pub sent_after : {t u : Threads} → Step t u → List Element → List Element
sent_after (receives reads n e r inside) l = l ++ (read_bytes reads ∷ [])
sent_after (disconnected k e d) l = l
sent_after (connected k e d) l = l
sent_after (producer_locks e free) l = l
sent_after (finds_full e full) l = l
sent_after (finds_room e room) l = l
sent_after (receives_nothing reads n e r) l = l
sent_after (producer_unlocks e) l = l
sent_after (consumer_locks e free) l = l
sent_after (finds_empty e empty) l = l
sent_after (finds_command e some_left) l = l
sent_after (pulls e) l = l
sent_after (consumer_unlocks e) l = l

-- The commands that were pulled, in order, after one step more.
unfoldable pub taken_after : {t u : Threads} → Step t u → List Element → List Element
taken_after {t} (pulls e) l =
    l
    ++ (bytes (pull_circle_buff_item t.net.local_buff_info t.net.local_buff zeroed).out 0
          client_buff_size
        ∷ [])
taken_after (receives reads n e r inside) l = l
taken_after (disconnected k e d) l = l
taken_after (connected k e d) l = l
taken_after (producer_locks e free) l = l
taken_after (finds_full e full) l = l
taken_after (finds_room e room) l = l
taken_after (receives_nothing reads n e r) l = l
taken_after (producer_unlocks e) l = l
taken_after (consumer_locks e free) l = l
taken_after (finds_empty e empty) l = l
taken_after (finds_command e some_left) l = l
taken_after (consumer_unlocks e) l = l

unfoldable pub sent : {net : Net} {t : Threads} → Reach net t → List Element
sent start = []
sent (later r s) = sent_after s (sent r)

unfoldable pub taken : {net : Net} {t : Threads} → Reach net t → List Element
taken start = []
taken (later r s) = taken_after s (taken r)

-- What `read_data` pushes is what its loop put together.
pub read_data-pushed :
    (reads : List Fread) (net : Net) {after : Net}
    → read_data reads net client_buff_size ≡ ReadData.pushed after
    → (p : Mem) × (after ≡ with_command net p) × (bytes p 0 client_buff_size ≡ read_bytes reads)
unfolding read_data read_bytes
read_data-pushed reads net {after} h = go (read_loop reads client_buff_size zeroed) refl
  where
    go :
        (l : Loop)
        → read_loop reads client_buff_size zeroed ≡ l
        → (p : Mem) × (after ≡ with_command net p) × (bytes p 0 client_buff_size ≡ read_bytes reads)
    go Loop.waiting e = absurd (let q = rw (e, read_data) at h in cc)
    go Loop.exits e = absurd (let q = rw (e, read_data) at h in cc)
    go (ended missing b rest) e = elim (Bool-cases (missing == 0)) [
      | inl z ↦ (b, ground (arith, rw (e, read_data, z) at h), rw (e, read_bytes) refl)
      | inr z ↦ absurd (let q = rw (e, read_data, z) at h in cc)
    ]
