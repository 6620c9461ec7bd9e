-- ===== src/Threads/Places.antt =====
-- What the two threads have at each place of their code, and what does not disturb it.
use virtual_force.Prelude.{ℕ, ◌≡◌, ◌≢◌, refl, false, Option, none, some, List, [], ◌∷◌}
use virtual_force.Memory.{Mem}
use virtual_force.Buffer.{BufferInfo, is_buff_full, is_buff_empty, pull_circle_buff_item}
use virtual_force.Buffer.Inv.{IsValid}
use virtual_force.Threads.{
  Thread, network_producer, controller_msg_process, ProducerAt, ConsumerAt, Threads,
}

-- What a thread has at its place: the mutex, and the test that it made.
abbrev pub ProducerHas : ProducerAt → Option Thread → BufferInfo → Type 0
ProducerHas ProducerAt.asking m i = m ≢ some network_producer
ProducerHas ProducerAt.locking m i = m ≢ some network_producer
ProducerHas ProducerAt.testing m i = m ≡ some network_producer
ProducerHas ProducerAt.reading m i = (m ≡ some network_producer) × (is_buff_full i ≡ false)
ProducerHas ProducerAt.unlocking m i = m ≡ some network_producer

abbrev pub ConsumerHas : ConsumerAt → Option Thread → BufferInfo → Type 0
ConsumerHas ConsumerAt.locking m i = m ≢ some controller_msg_process
ConsumerHas ConsumerAt.testing m i = m ≡ some controller_msg_process
ConsumerHas ConsumerAt.pulling m i = (m ≡ some controller_msg_process) × (is_buff_empty i ≡ false)
ConsumerHas ConsumerAt.unlocking m i = m ≡ some controller_msg_process

-- all pulls so far gave an element
abbrev pub AllPulled : List (Option ℕ) → Type 0
AllPulled [] = Unit {0}
AllPulled (r ∷ rs) = (r ≡ some 0) × AllPulled rs

pub record IsExclusive (t : Threads) : Type 0 where
  pub producer_has : ProducerHas t.producer t.mutex t.net.local_buff_info
  pub consumer_has : ConsumerHas t.consumer t.mutex t.net.local_buff_info
  pub ring : IsValid t.net.local_buff_info
  pub pulled : AllPulled t.results

-- A thread that does not hold the mutex is not disturbed.
pub producer_undisturbed :
    (p : ProducerAt) (i i' : BufferInfo) {m m' : Option Thread}
    → m ≢ some network_producer
    → m' ≢ some network_producer
    → ProducerHas p m i
    → ProducerHas p m' i'
producer_undisturbed ProducerAt.asking i i' n n' h = n'
producer_undisturbed ProducerAt.locking i i' n n' h = n'
producer_undisturbed ProducerAt.testing i i' n n' h = absurd (n h)
producer_undisturbed ProducerAt.reading i i' n n' h = absurd (n h.0)
producer_undisturbed ProducerAt.unlocking i i' n n' h = absurd (n h)

pub consumer_undisturbed :
    (c : ConsumerAt) (i i' : BufferInfo) {m m' : Option Thread}
    → m ≢ some controller_msg_process
    → m' ≢ some controller_msg_process
    → ConsumerHas c m i
    → ConsumerHas c m' i'
consumer_undisturbed ConsumerAt.locking i i' n n' h = n'
consumer_undisturbed ConsumerAt.testing i i' n n' h = absurd (n h)
consumer_undisturbed ConsumerAt.pulling i i' n n' h = absurd (n h.0)
consumer_undisturbed ConsumerAt.unlocking i i' n n' h = absurd (n h)

pub not_consumer : {m : Option Thread} → m ≡ some network_producer → m ≢ some controller_msg_process
not_consumer h e = cc

pub not_producer : {m : Option Thread} → m ≡ some controller_msg_process → m ≢ some network_producer
not_producer h e = cc

pub no_holder : {m : Option Thread} (x : Thread) → m ≡ none → m ≢ some x
no_holder x h e = cc

pub pull_succeeds :
    (i : BufferInfo) (m p : Mem)
    → is_buff_empty i ≡ false
    → (pull_circle_buff_item i m p).result ≡ some 0
unfolding pull_circle_buff_item
pull_succeeds i m p h = rw h refl
