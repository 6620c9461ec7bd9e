-- ===== src/Threads.antt =====
-- The two threads on the ring of received commands: `network_producer` of
-- VirtualForce_linux/network_client.c and `controller_msg_process` of VirtualForce_linux/controller.c,
-- which share `net_buff` under its mutex. The threads take their steps in any order.
pub mod Places
pub mod Exclusion
pub mod Progress
pub mod Log
pub mod Count
pub mod Order
use virtual_force.Prelude.{
  ℕ, ◌+◌, ◌≤◌, ◌≡◌, ◌≢◌, true, false, Option, none, some, List, [], ◌∷◌, ◌++◌,
}
use virtual_force.Memory.{Mem, zeroed}
use virtual_force.Buffer.{is_buff_full, is_buff_empty, pull_circle_buff_item}
use virtual_force.Network.{Net, Fread, ReadData, read_data, client_buff_size, max_size, established}

-- the holder of the mutex
pub data Thread : Type 0 where
  network_producer controller_msg_process : Thread

-- Where `network_producer` is: before `getsockopt`, before the lock, before the test of the ring,
-- before `read_data`, or before the unlock.
pub data ProducerAt : Type 0 where
  asking locking testing reading unlocking : ProducerAt

-- Where `controller_msg_process` is: before the lock, the test, the pull, or the unlock.
pub data ConsumerAt : Type 0 where
  locking testing pulling unlocking : ConsumerAt

-- `results` are the numbers that the pulls returned, the last one first.
pub record Threads : Type 0 where
  pub mutex : Option Thread
  pub producer : ProducerAt
  pub consumer : ConsumerAt
  pub net : Net
  pub results : List (Option ℕ)

-- One step of one thread. A thread that ended by `exit` ends the process: there is no step after it.
-- The mutex stands behind `local_buff`, and a command that reaches past `local_buff` is written over
-- it: the steps go up to the first such command, which is the ninth in a ring of `network_init`, and
-- that one is no step. Up to it no byte of the mutex is one of a command.
pub data Step (t : Threads) : Threads → Type 0 where
  disconnected :
      (tcpi_state : ℕ) → t.producer ≡ ProducerAt.asking → tcpi_state ≢ established → Step t t
  connected :
      (tcpi_state : ℕ)
      → t.producer ≡ ProducerAt.asking
      → tcpi_state ≡ established
      → Step t (record t { producer = ProducerAt.locking })
  producer_locks :
      t.producer ≡ ProducerAt.locking
      → t.mutex ≡ none
      → Step t (record t { producer = ProducerAt.testing; mutex = some network_producer })
  finds_full :
      t.producer ≡ ProducerAt.testing
      → is_buff_full t.net.local_buff_info ≡ true
      → Step t (record t { producer = ProducerAt.unlocking })
  finds_room :
      t.producer ≡ ProducerAt.testing
      → is_buff_full t.net.local_buff_info ≡ false
      → Step t (record t { producer = ProducerAt.reading })
  receives :
      (reads : List Fread) (n : Net)
      → t.producer ≡ ProducerAt.reading
      → read_data reads t.net client_buff_size ≡ ReadData.pushed n
      → t.net.local_buff_info.tail_index_offset + t.net.local_buff_info.element_length ≤ max_size
      → Step t (record t { producer = ProducerAt.unlocking; net = n })
  receives_nothing :
      (reads : List Fread) (n : Net)
      → t.producer ≡ ProducerAt.reading
      → read_data reads t.net client_buff_size ≡ ReadData.failed n
      → Step t (record t { producer = ProducerAt.unlocking; net = n })
  producer_unlocks :
      t.producer ≡ ProducerAt.unlocking
      → Step t (record t { producer = ProducerAt.asking; mutex = none })
  consumer_locks :
      t.consumer ≡ ConsumerAt.locking
      → t.mutex ≡ none
      → Step t (record t { consumer = ConsumerAt.testing; mutex = some controller_msg_process })
  finds_empty :
      t.consumer ≡ ConsumerAt.testing
      → is_buff_empty t.net.local_buff_info ≡ true
      → Step t (record t { consumer = ConsumerAt.unlocking })
  finds_command :
      t.consumer ≡ ConsumerAt.testing
      → is_buff_empty t.net.local_buff_info ≡ false
      → Step t (record t { consumer = ConsumerAt.pulling })
  pulls :
      t.consumer ≡ ConsumerAt.pulling
      → Step t (
          let r = pull_circle_buff_item t.net.local_buff_info t.net.local_buff zeroed in
          record t {
            consumer = ConsumerAt.unlocking;
            net = record (t.net) { local_buff_info = r.info };
            results = r.result ∷ t.results;
          })
  consumer_unlocks :
      t.consumer ≡ ConsumerAt.unlocking
      → Step t (record t { consumer = ConsumerAt.locking; mutex = none })

-- both threads before their first step
unfoldable pub created : Net → Threads
created net = record {
  mutex = none;
  producer = ProducerAt.asking;
  consumer = ConsumerAt.locking;
  net = net;
  results = [];
}

pub data Reach (net : Net) : Threads → Type 0 where
  start : Reach net (created net)
  later : {t u : Threads} → Reach net t → Step t u → Reach net u
