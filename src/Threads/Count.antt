-- ===== src/Threads/Count.antt =====
-- How many commands the shipped ring takes before one reaches past `local_buff`.
use virtual_force.Prelude.{
  ◌+◌, ◌*◌, ◌≤◌, ◌≡◌, refl, arith, false, List, [], ◌∷◌, ◌++◌, length, length-append,
}
use virtual_force.Memory.{Mem, zeroed}
use virtual_force.Buffer.{BufferInfo, is_buff_full, push_circle_buff_item, pull_circle_buff_item}
use virtual_force.Buffer.Fifo.{Element}
use virtual_force.Buffer.Inv.{IsValid}
use virtual_force.Network.{Net, client_buff_size, max_size, fresh_info}
use virtual_force.Network.Receiving.{read_data_lem}
use virtual_force.Threads.{
  ProducerAt, Threads, Step, disconnected, connected, producer_locks, finds_full, finds_room,
  receives, receives_nothing, producer_unlocks, consumer_locks, finds_empty, finds_command, pulls,
  consumer_unlocks, created, Reach, start, later,
}
use virtual_force.Threads.Log.{read_bytes, read_data-pushed, sent_after, sent}
use virtual_force.Threads.Places.{IsExclusive}
use virtual_force.Threads.Exclusion.{Reach-IsExclusive, at_producer}

-- The tail stands behind the commands that were put in.
record Counts (i : BufferInfo) (ins : List Element) : Type 0 where
  element_at : i.element_length ≡ client_buff_size
  length_at : i.buff_length ≡ max_size
  tail_at : i.tail_index_offset ≡ 32 * length ins
  eight : length ins ≤ 8

push-Counts :
    (i : BufferInfo) (m p : Mem) (x : Element) {ins : List Element}
    → is_buff_full i ≡ false
    → i.tail_index_offset + i.element_length ≤ max_size
    → Counts i ins
    → Counts (push_circle_buff_item i m p).info (ins ++ (x ∷ []))
unfolding push_circle_buff_item
push-Counts i m p x {ins} room inside v =
    let more = length-append ins (x ∷ []) in
    rw (room, v.element_at, v.length_at)
      (record {
        element_at = refl;
        length_at = refl;
        tail_at = omega (arith, v.tail_at, v.element_at, inside, more);
        eight = omega (arith, v.tail_at, v.element_at, inside, more);
      })

pull-Counts :
    (i : BufferInfo) (m p : Mem) {ins : List Element}
    → Counts i ins
    → Counts (pull_circle_buff_item i m p).info ins
unfolding pull_circle_buff_item
pull-Counts i m p v = record {
  element_at = ground (arith, v.element_at);
  length_at = ground (arith, v.length_at);
  tail_at = ground (arith, v.tail_at);
  eight = v.eight;
}

Step-Counts :
    {t u : Threads} {ins : List Element} (s : Step t u)
    → IsExclusive t
    → Counts t.net.local_buff_info ins
    → Counts u.net.local_buff_info (sent_after s ins)
unfolding sent_after
Step-Counts {t} (receives reads m e r inside) x v =
    let (p, same, read) = read_data-pushed reads t.net r in
    rw same (
      push-Counts t.net.local_buff_info t.net.local_buff p (read_bytes reads)
        (at_producer x ProducerAt.reading e).1 inside v)
Step-Counts {t} (pulls e) x v = pull-Counts t.net.local_buff_info t.net.local_buff zeroed v
Step-Counts (disconnected k e d) x v = v
Step-Counts (connected k e d) x v = v
Step-Counts (producer_locks e free) x v = v
Step-Counts (finds_full e full) x v = v
Step-Counts (finds_room e room) x v = v
Step-Counts {t} (receives_nothing reads m e r) x v =
    let same : m ≡ t.net = rw r at (read_data_lem reads t.net client_buff_size) in rw same v
Step-Counts (producer_unlocks e) x v = v
Step-Counts (consumer_locks e free) x v = v
Step-Counts (finds_empty e empty) x v = v
Step-Counts (finds_command e some_left) x v = v
Step-Counts (consumer_unlocks e) x v = v

Reach-Counts :
    {net : Net} {t : Threads}
    → IsValid net.local_buff_info
    → Counts net.local_buff_info []
    → (r : Reach net t) → Counts t.net.local_buff_info (sent r)
unfolding sent created
Reach-Counts ok v start = v
Reach-Counts ok v (later r s) = Step-Counts s (Reach-IsExclusive ok r) (Reach-Counts ok v r)

-- At most eight commands are put into the ring of `network_init`, up to the one that reaches past it.
pub sent_few :
    {net : Net} {t : Threads}
    → net.local_buff_info ≡ fresh_info
    → (r : Reach net t) → length (sent r) ≤ 8
sent_few fresh r =
    (Reach-Counts (rw fresh (omega arith))
      (rw fresh
        (record { element_at = refl; length_at = refl; tail_at = refl; eight = omega arith }))
      r).eight
