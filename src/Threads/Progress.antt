-- ===== src/Threads/Progress.antt =====
-- What the two threads can come to from any state, and what they cannot while one of them waits.
use virtual_force.Prelude.{
  ℕ, ◌+◌, ◌≤◌, ◌≡◌, refl, sym, ap, ◌∙◌, arith, false, Bool-cases, inl, inr, Option, none, some,
  List, [], ◌∷◌,
}
use virtual_force.Memory.{Mem, zeroed}
use virtual_force.Buffer.{BufferInfo, is_buff_full, is_buff_empty, push_circle_buff_item}
use virtual_force.Buffer.Inv.{IsValid}
use virtual_force.Network.{Net, Fread, client_buff_size, max_size}
use virtual_force.Network.Read.{read_data_whole}
use virtual_force.Threads.{
  Thread, network_producer, controller_msg_process, ProducerAt, ConsumerAt, Threads, Step,
  disconnected, connected, producer_locks, finds_full, finds_room, receives, receives_nothing,
  producer_unlocks, consumer_locks, finds_empty, finds_command, pulls, consumer_unlocks, Reach,
}
use virtual_force.Threads.Places.{IsExclusive, not_consumer, pull_succeeds}
use virtual_force.Threads.Exclusion.{at_producer, at_consumer, Reach-IsExclusive}

pub data Steps : Threads → Threads → Type 0 where
  here : {t : Threads} → Steps t t
  ahead : {t u v : Threads} → Step t u → Steps u v → Steps t v

-- Steps lead to a state where the other thread has taken a command.
abbrev pub CanTake : Threads → Type 0
CanTake t = (u : Threads) × Steps t u × (u.results ≡ some 0 ∷ t.results)

by_step : {t u : Threads} → Step t u → u.results ≡ t.results → CanTake u → CanTake t
by_step s same (v, steps, e) = (v, ahead s steps, e ∙ ap (λ (l : List (Option ℕ)). some 0 ∷ l) same)

take_pulling :
    (t : Threads)
    → t.consumer ≡ ConsumerAt.pulling
    → is_buff_empty t.net.local_buff_info ≡ false
    → CanTake t
take_pulling t at some_left = (
  _,
  ahead (pulls at) here,
  ap (λ (r : Option ℕ). r ∷ t.results)
      (pull_succeeds t.net.local_buff_info t.net.local_buff zeroed some_left),
)

take_testing :
    (t : Threads)
    → t.consumer ≡ ConsumerAt.testing
    → is_buff_empty t.net.local_buff_info ≡ false
    → CanTake t
take_testing t at some_left =
    by_step (finds_command at some_left) refl
      (take_pulling (record t { consumer = ConsumerAt.pulling }) refl some_left)

take_free :
    (t : Threads)
    → t.consumer ≡ ConsumerAt.locking
    → t.mutex ≡ none
    → is_buff_empty t.net.local_buff_info ≡ false
    → CanTake t
take_free t at free some_left = by_step (consumer_locks at free) refl (
    take_testing (record t { consumer = ConsumerAt.testing; mutex = some controller_msg_process })
      refl some_left)

-- The producer gives the mutex back first.
take_unlocking :
    (t : Threads)
    → t.consumer ≡ ConsumerAt.locking
    → t.producer ≡ ProducerAt.unlocking
    → is_buff_empty t.net.local_buff_info ≡ false
    → CanTake t
take_unlocking t at p some_left =
    by_step (producer_unlocks p) refl
      (take_free (record t { producer = ProducerAt.asking; mutex = none }) at refl some_left)

-- A push to a ring that is not full leaves one that is not empty.
pushed_some :
    (i : BufferInfo) (m p : Mem)
    → is_buff_full i ≡ false
    → is_buff_empty (push_circle_buff_item i m p).info ≡ false
unfolding push_circle_buff_item is_buff_empty is_buff_full
pushed_some i m p room = ground (arith, room)

-- A whole command arrives for the producer that reads.
take_reading :
    (t : Threads) (r : Fread)
    → r.count ≡ client_buff_size
    → t.consumer ≡ ConsumerAt.locking
    → t.producer ≡ ProducerAt.reading
    → is_buff_full t.net.local_buff_info ≡ false
    → t.net.local_buff_info.tail_index_offset + t.net.local_buff_info.element_length ≤ max_size
    → CanTake t
take_reading t r whole at p room inside =
    by_step (receives (r ∷ []) _ p (read_data_whole r [] t.net whole) inside) refl
      (take_unlocking _ at refl (pushed_some t.net.local_buff_info t.net.local_buff _ room))

module _ {t : Threads} (v : IsExclusive t) (r : Fread) (whole : r.count ≡ client_buff_size)
    (inside : t.net.local_buff_info.tail_index_offset + t.net.local_buff_info.element_length
      ≤ max_size) where
  -- The consumer stands before its lock, and the producer may hold the mutex.
  take_locking :
      t.consumer ≡ ConsumerAt.locking → is_buff_empty t.net.local_buff_info ≡ false → CanTake t
  take_locking at some_left = holder t.mutex refl
    where
      producer_at : (p : ProducerAt) → t.producer ≡ p → t.mutex ≡ some network_producer → CanTake t
      producer_at ProducerAt.asking e m = absurd (at_producer v ProducerAt.asking e m)
      producer_at ProducerAt.locking e m = absurd (at_producer v ProducerAt.locking e m)
      producer_at ProducerAt.unlocking e m = take_unlocking t at e some_left
      producer_at ProducerAt.reading e m =
          take_reading t r whole at e (at_producer v ProducerAt.reading e).1 inside
      producer_at ProducerAt.testing e m = elim (Bool-cases (is_buff_full t.net.local_buff_info)) [
        | inl full ↦
            by_step (finds_full e full) refl
              (take_unlocking (record t { producer = ProducerAt.unlocking }) at refl some_left)
        | inr room ↦
            by_step (finds_room e room) refl (
              take_reading (record t { producer = ProducerAt.reading }) r whole at refl room inside)
      ]

      holder : (m : Option Thread) → t.mutex ≡ m → CanTake t
      holder none e = take_free t at e some_left
      holder (some network_producer) e = producer_at t.producer refl e
      holder (some controller_msg_process) e = absurd (at_consumer v ConsumerAt.locking at e)

  take_any : is_buff_empty t.net.local_buff_info ≡ false → CanTake t
  take_any some_left = consumer_at t.consumer refl
    where
      consumer_at : (c : ConsumerAt) → t.consumer ≡ c → CanTake t
      consumer_at ConsumerAt.locking e = take_locking e some_left
      consumer_at ConsumerAt.testing e = take_testing t e some_left
      consumer_at ConsumerAt.pulling e = take_pulling t e some_left
      consumer_at ConsumerAt.unlocking e =
          by_step (consumer_unlocks e) refl (
            take_free (record t { consumer = ConsumerAt.locking; mutex = none }) refl refl
              some_left)

module _ {t : Threads} (v : IsExclusive t) where
  held : {P : Type 0} → t.producer ≡ ProducerAt.reading → t.mutex ≡ some controller_msg_process → P
  held p m = absurd (not_consumer (at_producer v ProducerAt.reading p).0 m)

  -- While the producer waits in its read, nothing else goes on.
  reading_blocks :
      {u : Threads}
      → t.producer ≡ ProducerAt.reading
      → Step t u
      → (u.producer ≡ ProducerAt.unlocking) × (u.consumer ≡ t.consumer) × (u.results ≡ t.results)
  reading_blocks p (disconnected k e d) = absurd (let q = sym p ∙ e in cc)
  reading_blocks p (connected k e d) = absurd (let q = sym p ∙ e in cc)
  reading_blocks p (producer_locks e m) = absurd (let q = sym p ∙ e in cc)
  reading_blocks p (finds_full e f) = absurd (let q = sym p ∙ e in cc)
  reading_blocks p (finds_room e f) = absurd (let q = sym p ∙ e in cc)
  reading_blocks p (receives reads n e h inside) = (refl, refl, refl)
  reading_blocks p (receives_nothing reads n e h) = (refl, refl, refl)
  reading_blocks p (producer_unlocks e) = absurd (let q = sym p ∙ e in cc)
  reading_blocks p (consumer_locks e m) =
      absurd (let q = sym m ∙ (at_producer v ProducerAt.reading p).0 in cc)
  reading_blocks p (finds_empty e f) = held p (at_consumer v ConsumerAt.testing e)
  reading_blocks p (finds_command e f) = held p (at_consumer v ConsumerAt.testing e)
  reading_blocks p (pulls e) = held p (at_consumer v ConsumerAt.pulling e).0
  reading_blocks p (consumer_unlocks e) = held p (at_consumer v ConsumerAt.unlocking e)

-- The two threads do not block each other, but a command in the ring may have to wait for the next one.
-- However their steps came in turn, from a ring in range on, up to the first command that would reach
-- past `local_buff`: when the ring is not empty, a whole command can be read, and its place in the ring
-- does not reach past `local_buff`, steps lead to a state where `controller_msg_process` has taken one more
-- command; but while `network_producer` is at its read, which it does with the mutex, no
-- step is possible except that the read returns: the other thread stays where it is, and takes nothing.
pub threads_progress :
    {net : Net} {t : Threads} (r : Fread)
    → IsValid net.local_buff_info
    → Reach net t
    → r.count ≡ client_buff_size
    → t.net.local_buff_info.tail_index_offset + t.net.local_buff_info.element_length ≤ max_size
    → (is_buff_empty t.net.local_buff_info ≡ false → CanTake t)
      × ((u : Threads)
          → t.producer ≡ ProducerAt.reading
          → Step t u
          → (u.producer ≡ ProducerAt.unlocking)
            × (u.consumer ≡ t.consumer)
            × (u.results ≡ t.results))
threads_progress r ok reach whole inside =
    let v = Reach-IsExclusive ok reach in (take_any v r whole inside, λ u p s. reading_blocks v p s)
