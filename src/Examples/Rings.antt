-- ===== src/Examples/Rings.antt =====
-- The theorems on the rings of buffer_manager.c, and runs.
use virtual_force.Prelude.{
  ℕ, ◌+◌, ◌^◌, ◌<◌, ◌≡◌, refl, arith, none, some, true, List, [], ◌∷◌, ◌++◌, if◌then◌else◌,
}
use virtual_force.Memory.{bytes, zeroed}
use virtual_force.Buffer.{
  is_buff_empty, is_buff_full, push_circle_buff_item, pull_circle_buff_item,
  push_circle_buff_bundle, pull_circle_buff_bundle,
}
use virtual_force.Buffer.Inv.{IsValid}
use virtual_force.Buffer.Moves.{
  Rings, Move, push_item, pull_item, push_bundle, pull_bundle, do_moves, AreValid, moves_in_range,
}
use virtual_force.Buffer.Blocks.{ahead}
use virtual_force.Buffer.Fifo.{Holds}
use virtual_force.Buffer.Queue.{Op, push, pull, run, spec, run_refines}
use virtual_force.Shmem.{Segments, attached, shmem_init, shmem_close, shmem_get}
use virtual_force.Shmem.Single.{Stands, shmem_attaches}
use virtual_force.Buffer.Stream.{contents}
use virtual_force.Buffer.Bundle.{push_bundle_lem, pull_bundle-push}
use virtual_force.Examples.Inputs.{counting, ring}

ring-IsValid : IsValid (ring 6 2 2 8)
ring-IsValid = omega arith

full-IsValid : IsValid (ring 3 7 2 16)
full-IsValid = omega arith

-- four blocks of two bytes, with the head at the last block and two elements
two_held : Holds (ring 6 2 2 8) (counting 0) 4 3 ((6 ∷ 7 ∷ []) ∷ (0 ∷ 1 ∷ []) ∷ [])
unfolding ahead bytes
two_held = record {
  length_at = refl;
  element_pos = omega arith;
  block_in = omega arith;
  head_at = refl;
  tail_at = refl;
  fits = omega arith;
  stored = (refl, (refl, tt));
}

abbrev script : List Op
script = push (counting 40) ∷ push (counting 50) ∷ pull ∷ pull ∷ pull ∷ pull ∷ []

run_refines_example :
    run (ring 6 2 2 8) (counting 0) script ≡ spec 2 3 ((6 ∷ 7 ∷ []) ∷ (0 ∷ 1 ∷ []) ∷ []) script
run_refines_example = run_refines script two_held

-- The ring of four blocks holds three elements: the second push is refused.
script_replies :
    run (ring 6 2 2 8) (counting 0) script
    ≡ (some 2, none)
      ∷ (none, none)
      ∷ (some 0, some (6 ∷ 7 ∷ []))
      ∷ (some 0, some (0 ∷ 1 ∷ []))
      ∷ (some 0, some (40 ∷ 41 ∷ []))
      ∷ (none, none)
      ∷ []
unfolding run push_circle_buff_item pull_circle_buff_item is_buff_full is_buff_empty bytes
script_replies = refl

abbrev two_rings : Rings
two_rings = record {
  circle_info = ring 3 7 2 16;
  circle = zeroed;
  local_info = ring 6 2 2 8;
  local = counting 0;
}

abbrev moves : List Move
moves = push_item (counting 1) ∷ push_bundle ∷ pull_item zeroed ∷ pull_bundle ∷ []

moves_in_range_example :
    let t = do_moves moves two_rings in
    let c = t.circle_info in
    let l = t.local_info in
    AreValid t
    × (c.tail_index_offset + c.element_length < 2 ^ 31)
    × (c.head_index_offset + c.element_length < 2 ^ 31)
    × (l.tail_index_offset + l.element_length < 2 ^ 31)
    × (l.head_index_offset + l.element_length < 2 ^ 31)
    × (c.tail_index_offset + l.buff_length < 2 ^ 31)
    × (l.tail_index_offset + c.buff_length < 2 ^ 31)
moves_in_range_example = moves_in_range moves two_rings (full-IsValid, ring-IsValid)

-- Bytes 6, 7, 0 and 1 of one ring go behind bytes 3 to 6 of the other.
push_bundle_lem_example :
    let r = push_circle_buff_bundle (ring 3 7 2 16) (counting 20) (ring 6 2 2 8) (counting 0) in
    (contents r.circle_info r.circle
      ≡ contents (ring 3 7 2 16) (counting 20) ++ contents (ring 6 2 2 8) (counting 0))
    × (r.local_info ≡ ring 2 2 2 8)
    × (r.local ≡ counting 0)
    × (r.result ≡ some 4)
push_bundle_lem_example =
    push_bundle_lem (counting 20) (counting 0) full-IsValid ring-IsValid (omega arith) (omega arith)

pull_bundle-push_example :
    pull_circle_buff_bundle (ring 6 2 2 8) (counting 0) (ring 3 7 2 16) (counting 20) ≡ (
      if is_buff_empty (ring 6 2 2 8)
      then record {
        circle_info = ring 6 2 2 8;
        circle = counting 0;
        local_info = ring 3 7 2 16;
        local = counting 20;
        result = some 0;
      }
      else let r =
          push_circle_buff_bundle (ring 3 7 2 16) (counting 20) (ring 6 2 2 8) (counting 0) in
        record {
          circle_info = r.local_info;
          circle = r.local;
          local_info = r.circle_info;
          local = r.circle;
          result = r.result;
        })
pull_bundle-push_example =
    pull_bundle-push (ring 6 2 2 8) (ring 3 7 2 16) (counting 0) (counting 20)

abbrev segments : Segments
segments = record { shmid_ctrl = some 1; shmid_msg = some 2; shmat = λ k. some (k + 7) }

-- two elements are pushed, the second one in vain, and pulled
abbrev two_pushes : List Op
two_pushes = push (counting 40) ∷ push (counting 50) ∷ pull ∷ pull ∷ []

attaches :
    shmem_init segments (ring 7 9 1 2)
    ≡ attached (record { shm_ctrl = 8; shm_msg = 9 }) (ring 0 0 2048 4096)
unfolding shmem_init
attaches = refl

shmem_attaches_example :
    Stands segments (some 1) 8
    × Stands segments (some 2) 9
    × (run (ring 0 0 2048 4096) (counting 0) two_pushes ≡ spec 2048 1 [] two_pushes)
    × (◌≡◌ {A = List ℕ} (8 ∷ 9 ∷ []) (8 ∷ 9 ∷ []))
unfolding shmem_close shmem_get
shmem_attaches_example =
    shmem_attaches segments (ring 7 9 1 2) (counting 0) two_pushes (λ p. true) attaches refl
