-- ===== src/Examples/Networks.antt =====
-- The theorems on network_client.c and on the messages, and runs.
use virtual_force.Prelude.{ℕ, ◌-◌, ◌≤◌, ◌<◌, ◌≡◌, refl, arith, none, some, List, [], ◌∷◌}
use virtual_force.Memory.{Mem, memcpy, zeroed}
use virtual_force.Buffer.{push_circle_buff_item, pull_circle_buff_item}
use virtual_force.Wire.RoundTrip.{Fits}
use virtual_force.Network.{
  Net, Fread, eintr, ended, read_loop, ReadData, read_data, client_buff_size, fresh_info,
}
use virtual_force.Network.Read.{read_loop_restarts}
use virtual_force.Network.Shipped.{shipped_refines}
use virtual_force.Buffer.Queue.{Op, push, pull, run, spec}
use virtual_force.Network.Misfit.{push_all, ten_overwrite}
use virtual_force.Examples.Inputs.{counting, six, net}

Fits-small : Fits 4 (six 100)
Fits-small = omega arith

Fits-double : Fits 8 (six 7)
Fits-double = omega arith

-- `n` bytes, counted from `k`, and then an interruption
abbrev interrupted : ℕ → ℕ → Fread
interrupted k n = record { data_read = counting k; count = n; error = some eintr }

abbrev rest_of : ℕ → ℕ → Fread
rest_of k n = record { data_read = counting k; count = n; error = none }

abbrev in_two : List Fread
in_two = interrupted 0 12 ∷ rest_of 12 20 ∷ []

abbrev after_two : Net
after_two =
    let r =
      push_circle_buff_item net.local_buff_info net.local_buff
        (memcpy (memcpy zeroed 0 (counting 0) 0 12) 0 (counting 12) 0 20) in
    record net { local_buff_info = r.info; local_buff = r.buff }

in_two_pushed : read_data in_two net 32 ≡ ReadData.pushed after_two
unfolding read_data read_loop
in_two_pushed = refl

-- The first 20 bytes of the command are those that were read last.
read_loop_restarts_example :
    (b : Mem) × (read_loop (interrupted 0 12 ∷ rest_of 12 20 ∷ []) client_buff_size zeroed
      ≡ ended 0 b [])
    × ((i : ℕ) → i < 20 → b i ≡ counting 12 i)
read_loop_restarts_example =
    read_loop_restarts (interrupted 0 12) (rest_of 12 20) [] (omega arith) (omega arith) refl refl

-- commands that come and are taken, the ninth of them at the end of the ring
abbrev traffic : List Op
traffic =
    push (counting 1)
    ∷ push (counting 2)
    ∷ pull
    ∷ push (counting 3)
    ∷ push (counting 4)
    ∷ pull
    ∷ pull
    ∷ push (counting 5)
    ∷ push (counting 6)
    ∷ push (counting 7)
    ∷ push (counting 8)
    ∷ push (counting 9)
    ∷ push (counting 10)
    ∷ pull
    ∷ pull
    ∷ []

shipped_refines_example : run fresh_info zeroed traffic ≡ spec 32 8 [] traffic
shipped_refines_example = shipped_refines traffic zeroed (ground arith)

ten_overwrite_example :
    let (r, results) = push_all counting 10 fresh_info zeroed in
    let t = pull_circle_buff_item r.info r.buff zeroed in
    (results
      ≡ some 32
        ∷ some 32
        ∷ some 32
        ∷ some 32
        ∷ some 32
        ∷ some 32
        ∷ some 32
        ∷ some 32
        ∷ some 32
        ∷ some 32
        ∷ [])
    × ((k : ℕ) → k < 8 → t.out k ≡ counting 0 k)
    × ((k : ℕ) → 8 ≤ k → k < 32 → t.out k ≡ counting 9 (k - 8))
ten_overwrite_example = ten_overwrite counting zeroed zeroed
