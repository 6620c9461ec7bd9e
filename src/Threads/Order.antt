-- ===== src/Threads/Order.antt =====
-- In which order `controller_msg_process` takes out what `network_producer` puts in, on any ring that
-- keeps a queue.
use virtual_force.Prelude.{ℕ, ◌+◌, ◌≤◌, ◌≡◌, refl, sym, arith, false, List, [], ◌∷◌, ◌++◌, length}
use mathlib.Core.List.{append_assoc}
use virtual_force.Memory.{Mem, zeroed, bytes}
use virtual_force.Buffer.{BufferInfo, is_buff_full, is_buff_empty}
use virtual_force.Buffer.Fifo.{Element, Holds}
use virtual_force.Buffer.Inv.{IsValid}
use virtual_force.Network.{Net, client_buff_size, max_size, fresh_info}
use virtual_force.Network.Shipped.{KeepsShipped, first-QueueLaws, fresh-KeepsFirst}
use virtual_force.Network.Receiving.{with_command, read_data_lem}
use virtual_force.Threads.{
  ProducerAt, ConsumerAt, Threads, Step, disconnected, connected, producer_locks, finds_full,
  finds_room, receives, receives_nothing, producer_unlocks, consumer_locks, finds_empty,
  finds_command, pulls, consumer_unlocks, created, Reach, start, later,
}
use virtual_force.Buffer.Laws.{QueueLaws, whole-QueueLaws}
use virtual_force.Threads.Log.{read_data-pushed, sent_after, taken_after, sent, taken}
use virtual_force.Threads.Count.{sent_few}
use virtual_force.Threads.Places.{IsExclusive}
use virtual_force.Threads.Exclusion.{Reach-IsExclusive, at_producer, at_consumer}

module _ {Keeps : BufferInfo → Mem → List Element → Type 0}
    (laws : QueueLaws client_buff_size max_size Keeps) where
  -- The ring holds the commands that were sent and not yet taken.
  record InOrder (net : Net) (ins outs : List Element) : Type 0 where
    queue : List Element
    keeps : Keeps net.local_buff_info net.local_buff queue
    split : ins ≡ outs ++ queue

  -- A ring that is not empty holds a command.
  queued :
      {i : BufferInfo} {m : Mem} (q : List Element)
      → Keeps i m q
      → is_buff_empty i ≡ false
      → (x : Element) × (rest : List Element) × (q ≡ x ∷ rest)
  queued [] v e = absurd (let z = laws.empties v in cc)
  queued (x ∷ q) v e = (x, q, refl)

  -- A push that `with_command` makes adds its bytes to the end of the queue.
  with_command-InOrder :
      (net : Net) (p : Mem) {ins outs : List Element}
      → is_buff_full net.local_buff_info ≡ false
      → net.local_buff_info.tail_index_offset + net.local_buff_info.element_length ≤ max_size
      → InOrder net ins outs
      → InOrder (with_command net p) (ins ++ (bytes p 0 client_buff_size ∷ [])) outs
  with_command-InOrder net p {ins} {outs} room inside v = record {
    queue = v.queue ++ (bytes p 0 client_buff_size ∷ []);
    keeps = laws.pushes p v.keeps room inside;
    split = rw v.split (append_assoc outs v.queue (bytes p 0 client_buff_size ∷ []));
  }

  Step-InOrder :
      {t u : Threads} {ins outs : List Element} (s : Step t u)
      → IsExclusive t
      → InOrder t.net ins outs
      → InOrder u.net (sent_after s ins) (taken_after s outs)
  unfolding sent_after taken_after
  Step-InOrder {t} {ins = ins} (receives reads m e r inside) x v =
      let (p, same, read) = read_data-pushed reads t.net r in
      rw (same, sym read)
        (with_command-InOrder t.net p (at_producer x ProducerAt.reading e).1 inside v)
  Step-InOrder {t} {ins} {outs} (pulls e) x v =
      let (c, rest, split) = queued v.queue v.keeps (at_consumer x ConsumerAt.pulling e).1 in
      let (keeps, read) = laws.pulls zeroed (rw split at v.keeps) in
      record {
        queue = rest;
        keeps = keeps;
        split = rw (v.split, split, read) (sym (append_assoc outs (c ∷ []) rest));
      }
  Step-InOrder (disconnected k e d) x v = v
  Step-InOrder (connected k e d) x v = v
  Step-InOrder (producer_locks e free) x v = v
  Step-InOrder (finds_full e full) x v = v
  Step-InOrder (finds_room e room) x v = v
  Step-InOrder {t} (receives_nothing reads m e r) x v =
      let same : m ≡ t.net = rw r at (read_data_lem reads t.net client_buff_size) in rw same v
  Step-InOrder (producer_unlocks e) x v = v
  Step-InOrder (consumer_locks e free) x v = v
  Step-InOrder (finds_empty e empty) x v = v
  Step-InOrder (finds_command e some_left) x v = v
  Step-InOrder (consumer_unlocks e) x v = v

  Reach-InOrder :
      {net : Net} {t : Threads}
      → IsValid net.local_buff_info
      → Keeps net.local_buff_info net.local_buff []
      → (r : Reach net t) → InOrder t.net (sent r) (taken r)
  unfolding sent taken created
  Reach-InOrder ok v start = record { queue = []; keeps = v; split = refl }
  Reach-InOrder ok v (later r s) = Step-InOrder s (Reach-IsExclusive ok r) (Reach-InOrder ok v r)

-- The ring between the two threads is a queue: however their steps come in turn, from an empty ring of
-- `n` whole commands with its offsets and lengths in range on, up to the first command that would reach
-- past `local_buff`, the commands that were taken out are the
-- first of those that were put in, in the same order and with the same bytes, and the others are in the
-- ring, fewer than `n`; none is lost, changed or taken twice.
threads_in_order :
    {net : Net} {t : Threads} (n h : ℕ)
    → IsValid net.local_buff_info
    → net.local_buff_info.element_length ≡ client_buff_size
    → Holds net.local_buff_info net.local_buff n h []
    → (r : Reach net t)
    → (h' : ℕ) × (q : List Element) × Holds t.net.local_buff_info t.net.local_buff n h' q
      × (sent r ≡ taken r ++ q)
threads_in_order n h ok e v r =
    let w =
      Reach-InOrder (whole-QueueLaws client_buff_size max_size n) ok
        (record { head = h; element_length_at = e; holds = v }) r in
    (w.keeps.head, w.queue, w.keeps.holds, w.split)

-- The shipped ring of 280 bytes is a queue between the two threads for its first eight commands: however
-- the steps of the threads come in turn from the ring of `network_init` on, up to the first command that
-- would reach past `local_buff` into the mutex, at most eight commands were put in, those that were taken
-- out are the first of them, in the same order and with the same bytes, and the others are in the ring.
pub shipped_in_order :
    {net : Net} {t : Threads}
    → net.local_buff_info ≡ fresh_info
    → (r : Reach net t)
    → (q : List Element) × KeepsShipped t.net.local_buff_info t.net.local_buff q
      × (sent r ≡ taken r ++ q)
      × (length (sent r) ≤ 8)
shipped_in_order {net} fresh r =
    let w =
      Reach-InOrder first-QueueLaws (rw fresh (omega arith))
        (rw fresh (fresh-KeepsFirst net.local_buff)) r in
    (w.queue, w.keeps.shipped, w.split, sent_few fresh r)
