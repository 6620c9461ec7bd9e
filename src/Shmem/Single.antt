-- ===== src/Shmem/Single.antt =====
-- The ring of shmem_client.c as a queue, and its two segments.
use virtual_force.Prelude.{ℕ, ◌≡◌, ap, ◌∙◌, arith, Bool, true, Option, some, List, [], ◌∷◌}
use virtual_force.Memory.{Mem}
use virtual_force.Buffer.{BufferInfo}
use virtual_force.Buffer.Blocks.{ahead}
use virtual_force.Buffer.Fifo.{Holds}
use virtual_force.Buffer.Queue.{Op, run, spec, run_refines}
use virtual_force.Shmem.{
  Segments, Shmem, attached, shmem_init, shmem_close, shmem_get, shmem_element,
}

init-Holds :
    (os : Segments) (old : BufferInfo) (m : Mem) {p : Shmem} {i : BufferInfo}
    → shmem_init os old ≡ attached p i
    → Holds i m 2 0 []
unfolding shmem_init ahead
init-Holds os old m {p} {i} h = ground arith

init-element :
    (os : Segments) (old : BufferInfo) {p : Shmem} {i : BufferInfo}
    → shmem_init os old ≡ attached p i
    → i.element_length ≡ shmem_element
unfolding shmem_init
init-element os old h = ground arith

shmem_refines :
    (os : Segments) (old : BufferInfo) (m : Mem) (ops : List Op) {p : Shmem} {i : BufferInfo}
    → shmem_init os old ≡ attached p i
    → run i m ops ≡ spec shmem_element 1 [] ops
shmem_refines os old m ops h =
    run_refines ops (init-Holds os old m h)
    ∙ ap (λ (size : ℕ). spec size 1 [] ops) (init-element os old h)

-- `shmem_get` gives out where the segment of this number stands.
abbrev pub Stands : Segments → Option ℕ → ℕ → Type 0
Stands os shmid place = (id : ℕ) × (shmid ≡ some id) × (os.shmat id ≡ some place)

get-Stands :
    (os : Segments) (old : BufferInfo) {p : Shmem} {i : BufferInfo}
    → shmem_init os old ≡ attached p i
    → Stands os os.shmid_ctrl (shmem_get p).0 × Stands os os.shmid_msg (shmem_get p).1
unfolding shmem_init shmem_get
get-Stands os old h = ground arith

close_lem :
    (shmdt : ℕ → Bool) (p : Shmem)
    → (shmem_close shmdt p).goes_on ≡ true
    → (shmem_close shmdt p).detached ≡ (shmem_get p).0 ∷ (shmem_get p).1 ∷ []
unfolding shmem_close shmem_get
close_lem shmdt p h = ground arith

-- If neither `shmem_init` nor the later `shmem_close` exits, both segments were attached, and `shmem_get`
-- gives out where they stand; whatever they held before, the ring of `shmem_init` is a queue of at most
-- one element of 2048 bytes, empty at first: no sequence of pushes and pulls tells them apart; and
-- `shmem_close` detaches the two places that `shmem_get` gives out, in that order.
pub shmem_attaches :
    (os : Segments) (old : BufferInfo) (m : Mem) (ops : List Op) (shmdt : ℕ → Bool) {p : Shmem}
    {i : BufferInfo}
    → shmem_init os old ≡ attached p i
    → (shmem_close shmdt p).goes_on ≡ true
    → Stands os os.shmid_ctrl (shmem_get p).0
      × Stands os os.shmid_msg (shmem_get p).1
      × (run i m ops ≡ spec shmem_element 1 [] ops)
      × ((shmem_close shmdt p).detached ≡ (shmem_get p).0 ∷ (shmem_get p).1 ∷ [])
shmem_attaches os old m ops shmdt {p} h goes =
    let (ctrl, msg) = get-Stands os old h in
    (ctrl, msg, shmem_refines os old m ops h, close_lem shmdt p goes)
