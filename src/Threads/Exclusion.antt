-- ===== src/Threads/Exclusion.antt =====
-- What the mutex of `net_buff` gives the two threads.
use virtual_force.Prelude.{
  ℕ, ◌≡◌, ◌≢◌, refl, Bool, ◌&&◌, true, false, Option, none, some, List, ◌∷◌,
}
use virtual_force.Memory.{zeroed}
use virtual_force.Buffer.{BufferInfo, pull_circle_buff_item}
use virtual_force.Buffer.Inv.{IsValid, item-IsValid}
use virtual_force.Network.{Net, ReadData, client_buff_size}
use virtual_force.Network.Receiving.{Reads, read_data_lem}
use virtual_force.Threads.{
  Thread, network_producer, controller_msg_process, ProducerAt, ConsumerAt, Threads, Step,
  disconnected, connected, producer_locks, finds_full, finds_room, receives, receives_nothing,
  producer_unlocks, consumer_locks, finds_empty, finds_command, pulls, consumer_unlocks, created,
  Reach, start, later,
}
use virtual_force.Threads.Places.{
  ProducerHas, ConsumerHas, AllPulled, IsExclusive, producer_undisturbed, consumer_undisturbed,
  not_consumer, not_producer, no_holder, pull_succeeds,
}

module _ {t : Threads} (v : IsExclusive t) where
  open v use {producer_has, consumer_has, ring, pulled}

  -- The producer changes the ring and its place, with the mutex.
  by_producer :
      (p : ProducerAt) (m : Option Thread) (n : Net)
      → t.mutex ≢ some controller_msg_process
      → m ≢ some controller_msg_process
      → ProducerHas p m n.local_buff_info
      → IsValid n.local_buff_info
      → IsExclusive (record t { producer = p; mutex = m; net = n })
  by_producer p m n free free' h ring' = record {
    producer_has = h;
    consumer_has =
        consumer_undisturbed t.consumer t.net.local_buff_info n.local_buff_info free free'
          consumer_has;
    ring = ring';
    pulled = pulled;
  }

  pub at_producer : (p : ProducerAt) → t.producer ≡ p → ProducerHas p t.mutex t.net.local_buff_info
  at_producer p e = rw e at producer_has

  pub at_consumer : (c : ConsumerAt) → t.consumer ≡ c → ConsumerHas c t.mutex t.net.local_buff_info
  at_consumer c e = rw e at consumer_has

  by_consumer :
      (c : ConsumerAt) (m : Option Thread) (n : Net) (rs : List (Option ℕ))
      → t.mutex ≢ some network_producer
      → m ≢ some network_producer
      → ConsumerHas c m n.local_buff_info
      → IsValid n.local_buff_info
      → AllPulled rs
      → IsExclusive (record t { consumer = c; mutex = m; net = n; results = rs })
  by_consumer c m n rs free free' h ring' pulled' = record {
    producer_has =
        producer_undisturbed t.producer t.net.local_buff_info n.local_buff_info free free'
          producer_has;
    consumer_has = h;
    ring = ring';
    pulled = pulled';
  }

  pushed-IsValid : (n : Net) → Reads t.net (ReadData.pushed n) → IsValid n.local_buff_info
  pushed-IsValid n (p, e) = rw e (item-IsValid t.net.local_buff p ring).0

  failed-IsValid : (n : Net) → Reads t.net (ReadData.failed n) → IsValid n.local_buff_info
  failed-IsValid n e = rw e ring

Step-IsExclusive : {t u : Threads} → Step t u → IsExclusive t → IsExclusive u
Step-IsExclusive (disconnected k e d) v = v
Step-IsExclusive {t} (connected k e d) v =
    let h = at_producer v ProducerAt.asking e in
    record { producer_has = h; consumer_has = v.consumer_has; ring = v.ring; pulled = v.pulled }
Step-IsExclusive {t} (producer_locks e free) v =
    by_producer v ProducerAt.testing (some network_producer) t.net
      (no_holder controller_msg_process free) (not_consumer refl) refl v.ring
Step-IsExclusive {t} (finds_full e full) v =
    let h = at_producer v ProducerAt.testing e in
    by_producer v ProducerAt.unlocking t.mutex t.net (not_consumer h) (not_consumer h) h v.ring
Step-IsExclusive {t} (finds_room e room) v =
    let h = at_producer v ProducerAt.testing e in
    by_producer v ProducerAt.reading t.mutex t.net (not_consumer h) (not_consumer h) (h, room)
      v.ring
Step-IsExclusive {t} (receives reads n e r inside) v =
    let h = at_producer v ProducerAt.reading e in
    by_producer v ProducerAt.unlocking t.mutex n (not_consumer h.0) (not_consumer h.0) h.0
      (pushed-IsValid v n (rw r at (read_data_lem reads t.net client_buff_size)))
Step-IsExclusive {t} (receives_nothing reads n e r) v =
    let h = at_producer v ProducerAt.reading e in
    by_producer v ProducerAt.unlocking t.mutex n (not_consumer h.0) (not_consumer h.0) h.0
      (failed-IsValid v n (rw r at (read_data_lem reads t.net client_buff_size)))
Step-IsExclusive {t} (producer_unlocks e) v =
    let h = at_producer v ProducerAt.unlocking e in
    by_producer v ProducerAt.asking none t.net (not_consumer h) (λ q. cc) (λ q. cc) v.ring
Step-IsExclusive {t} (consumer_locks e free) v =
    by_consumer v ConsumerAt.testing (some controller_msg_process) t.net t.results
      (no_holder network_producer free) (not_producer refl) refl v.ring v.pulled
Step-IsExclusive {t} (finds_empty e empty) v =
    let h = at_consumer v ConsumerAt.testing e in
    by_consumer v ConsumerAt.unlocking t.mutex t.net t.results (not_producer h) (not_producer h) h
      v.ring v.pulled
Step-IsExclusive {t} (finds_command e some_left) v =
    let h = at_consumer v ConsumerAt.testing e in
    by_consumer v ConsumerAt.pulling t.mutex t.net t.results (not_producer h) (not_producer h)
      (h, some_left) v.ring v.pulled
Step-IsExclusive {t} (pulls e) v =
    let h = at_consumer v ConsumerAt.pulling e in
    let r = pull_circle_buff_item t.net.local_buff_info t.net.local_buff zeroed in
    by_consumer v ConsumerAt.unlocking t.mutex (record (t.net) { local_buff_info = r.info })
      (r.result ∷ t.results) (not_producer h.0) (not_producer h.0) h.0
      (item-IsValid t.net.local_buff zeroed v.ring).1
      (pull_succeeds t.net.local_buff_info t.net.local_buff zeroed h.1, v.pulled)
Step-IsExclusive {t} (consumer_unlocks e) v =
    let h = at_consumer v ConsumerAt.unlocking e in
    by_consumer v ConsumerAt.locking none t.net t.results (not_producer h) (λ q. cc) (λ q. cc)
      v.ring v.pulled

created-IsExclusive : (net : Net) → IsValid net.local_buff_info → IsExclusive (created net)
unfolding created
created-IsExclusive net ok = record {
  producer_has = λ q. cc;
  consumer_has = λ q. cc;
  ring = ok;
  pulled = tt;
}

pub Reach-IsExclusive :
    {net : Net} {t : Threads} → IsValid net.local_buff_info → Reach net t → IsExclusive t
Reach-IsExclusive {net} ok start = created-IsExclusive net ok
Reach-IsExclusive ok (later r s) = Step-IsExclusive s (Reach-IsExclusive ok r)

-- whether the thread is between its lock and its unlock
unfoldable pub producer_inside : ProducerAt → Bool
producer_inside ProducerAt.asking = false
producer_inside ProducerAt.locking = false
producer_inside ProducerAt.testing = true
producer_inside ProducerAt.reading = true
producer_inside ProducerAt.unlocking = true

unfoldable pub consumer_inside : ConsumerAt → Bool
consumer_inside ConsumerAt.locking = false
consumer_inside ConsumerAt.testing = true
consumer_inside ConsumerAt.pulling = true
consumer_inside ConsumerAt.unlocking = true

outside :
    (c : ConsumerAt) (m : Option Thread) (i : BufferInfo)
    → m ≢ some controller_msg_process
    → ConsumerHas c m i
    → consumer_inside c ≡ false
unfolding consumer_inside
outside ConsumerAt.locking m i n k = refl
outside ConsumerAt.testing m i n k = absurd (n k)
outside ConsumerAt.pulling m i n k = absurd (n k.0)
outside ConsumerAt.unlocking m i n k = absurd (n k)

never_both :
    (p : ProducerAt) (c : ConsumerAt) (m : Option Thread) (i : BufferInfo)
    → ProducerHas p m i
    → ConsumerHas c m i
    → (producer_inside p && consumer_inside c) ≡ false
unfolding producer_inside consumer_inside
never_both ProducerAt.asking c m i h k = refl
never_both ProducerAt.locking c m i h k = refl
never_both ProducerAt.testing c m i h k = outside c m i (not_consumer h) k
never_both ProducerAt.reading c m i h k = outside c m i (not_consumer h.0) k
never_both ProducerAt.unlocking c m i h k = outside c m i (not_consumer h) k

-- However the steps of the two threads come in turn, from a ring in range on, up to the first command that
-- would reach past `local_buff` into the mutex: never are both between lock and unlock; where
-- `network_producer` is about to read a command it holds the mutex and the ring
-- is still not full, and where `controller_msg_process` is about to pull it holds the mutex and the
-- ring is still not empty; so no pull has ever returned -1; and the ring stays in range.
pub threads_exclude :
    {net : Net} {t : Threads}
    → IsValid net.local_buff_info
    → Reach net t
    → ((producer_inside t.producer && consumer_inside t.consumer) ≡ false)
      × ProducerHas t.producer t.mutex t.net.local_buff_info
      × ConsumerHas t.consumer t.mutex t.net.local_buff_info
      × AllPulled t.results
      × IsValid t.net.local_buff_info
threads_exclude {net} {t} ok r =
    let v = Reach-IsExclusive ok r in
    (
      never_both t.producer t.consumer t.mutex t.net.local_buff_info v.producer_has v.consumer_has,
      v.producer_has,
      v.consumer_has,
      v.pulled,
      v.ring,
    )
