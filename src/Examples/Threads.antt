-- ===== src/Examples/Threads.antt =====
-- The theorems on the two threads of the ring, and a run.
use virtual_force.Prelude.{
  length, ◌+◌, ◌≤◌, List, ◌++◌, ◌≡◌, refl, arith, false, ◌&&◌, some, [], ◌∷◌,
}
use virtual_force.Memory.{memcpy, zeroed}
use virtual_force.Wire.{store_cmd}
use virtual_force.Buffer.{push_circle_buff_item, is_buff_full, is_buff_empty}
use virtual_force.Buffer.Inv.{IsValid}
use virtual_force.Network.{Net, ReadData, read_data, max_size}
use virtual_force.Network.Read.{read_data_whole}
use virtual_force.Threads.{
  ProducerAt, ConsumerAt, controller_msg_process, Threads, Step, Reach, later, connected,
  producer_locks, finds_room, receives, producer_unlocks, consumer_locks, finds_command, created,
}
use virtual_force.Threads.Progress.{CanTake, threads_progress}
use virtual_force.Threads.Places.{ProducerHas, ConsumerHas, AllPulled}
use virtual_force.Threads.Exclusion.{producer_inside, consumer_inside, threads_exclude}
use virtual_force.Buffer.Fifo.{Element}
use virtual_force.Threads.Log.{sent, taken}
use virtual_force.Threads.Order.{shipped_in_order}
use virtual_force.Network.Shipped.{KeepsShipped}
use virtual_force.Examples.Inputs.{command, read_of, net}

-- A command arrives, and the other thread takes it.
arrived : Net → Net
arrived net =
    let r =
      push_circle_buff_item net.local_buff_info net.local_buff
        (memcpy zeroed 0 (store_cmd (command 13)) 0 32) in
    record net { local_buff_info = r.info; local_buff = r.buff }

received :
    (net : Net) → read_data (read_of (command 13) ∷ []) net 32 ≡ ReadData.pushed (arrived net)
unfolding arrived
received net = read_data_whole (read_of (command 13)) [] net refl

taking : Net → Threads
taking net = record {
  mutex = some controller_msg_process;
  producer = ProducerAt.locking;
  consumer = ConsumerAt.pulling;
  net = arrived net;
  results = [];
}

taking_reached :
    (net : Net)
    → is_buff_full net.local_buff_info ≡ false
    → is_buff_empty (arrived net).local_buff_info ≡ false
    → net.local_buff_info.tail_index_offset + net.local_buff_info.element_length ≤ max_size
    → Reach net (taking net)
unfolding created taking
taking_reached net room some_left inside =
    later
      (later
        (later
          (later
            (later
              (later (later (later Reach.start (connected 1 refl refl)) (producer_locks refl refl))
                (finds_room refl room))
              (receives (read_of (command 13) ∷ []) (arrived net) refl (received net) inside))
            (producer_unlocks refl))
          (connected 1 refl refl))
        (consumer_locks refl refl))
      (finds_command refl some_left)

not_full : is_buff_full net.local_buff_info ≡ false
unfolding is_buff_full
not_full = refl

not_empty : is_buff_empty (arrived net).local_buff_info ≡ false
unfolding arrived is_buff_empty push_circle_buff_item is_buff_full
not_empty = refl

fresh-IsValid : IsValid net.local_buff_info
fresh-IsValid = omega arith

threads_exclude_example :
    ((producer_inside (taking net).producer && consumer_inside (taking net).consumer) ≡ false)
    × ProducerHas (taking net).producer (taking net).mutex (taking net).net.local_buff_info
    × ConsumerHas (taking net).consumer (taking net).mutex (taking net).net.local_buff_info
    × AllPulled (taking net).results
    × IsValid (taking net).net.local_buff_info
threads_exclude_example =
    threads_exclude fresh-IsValid (taking_reached net not_full not_empty (omega arith))

threads_progress_example :
    (is_buff_empty (taking net).net.local_buff_info ≡ false → CanTake (taking net))
    × ((u : Threads)
        → (taking net).producer ≡ ProducerAt.reading
        → Step (taking net) u
        → (u.producer ≡ ProducerAt.unlocking)
          × (u.consumer ≡ (taking net).consumer)
          × (u.results ≡ (taking net).results))
unfolding taking arrived push_circle_buff_item is_buff_full
threads_progress_example =
    threads_progress (read_of (command 13)) fresh-IsValid
      (taking_reached net not_full not_empty (omega arith)) refl (omega arith)

shipped_in_order_example :
    (q : List Element) × KeepsShipped (arrived net).local_buff_info (arrived net).local_buff q
    × (sent (taking_reached net not_full not_empty (omega arith))
        ≡ taken (taking_reached net not_full not_empty (omega arith)) ++ q)
    × (length (sent (taking_reached net not_full not_empty (omega arith))) ≤ 8)
unfolding taking
shipped_in_order_example =
    shipped_in_order refl (taking_reached net not_full not_empty (omega arith))
