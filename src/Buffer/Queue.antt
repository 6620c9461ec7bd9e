-- ===== src/Buffer/Queue.antt =====
-- What the item operations of buffer_manager.c promise: a queue of elements of a fixed size, of
-- which a bounded number fits; and a client that pushes and pulls in any order.
use virtual_force.Prelude.{
  ℕ, suc, ◌≡◌, refl, List, [], ◌∷◌, ◌++◌, arith, none, some, length, ◌==◌, Option, if◌then◌else◌,
  ap, ◌≢◌, ℕ_discrete,
}
use virtual_force.Memory.{Mem, bytes, zeroed}
use virtual_force.Buffer.{BufferInfo, push_circle_buff_item, pull_circle_buff_item}
use virtual_force.Buffer.Fifo.{
  Element, Holds, push_lem, push_full, pull_lem, pull_empty, element_length-push,
  element_length-pull,
}

-- One call of a client: a push of the element at a pointer, or a pull.
pub data Op : Type 0 where
  push : Mem → Op
  pull : Op

-- What a call returns, and the element that a successful pull wrote.
abbrev pub Reply : Type 0
Reply = Option ℕ × Option Element

-- The ring, call by call; each pull is given zeroed memory to write to.
unfoldable pub run : BufferInfo → Mem → List Op → List Reply
run i m [] = []
run i m (push p ∷ ops) =
    let r = push_circle_buff_item i m p in (r.result, none) ∷ run r.info r.buff ops
run i m (pull ∷ ops) =
    let r = pull_circle_buff_item i m zeroed in
    (r.result, elim r.result [ none ↦ none | some k ↦ some (bytes r.out 0 i.element_length) ])
    ∷ run r.info m ops

-- The specification: the same calls on a queue of at most `room` elements of `size` bytes.
unfoldable pub spec : ℕ → ℕ → List Element → List Op → List Reply
spec size room q [] = []
spec size room q (push p ∷ ops) =
    if length q == room
    then (none, none) ∷ spec size room q ops
    else (some size, none) ∷ spec size room (q ++ (bytes p 0 size ∷ [])) ops
spec size room [] (pull ∷ ops) = (none, none) ∷ spec size room [] ops
spec size room (x ∷ q) (pull ∷ ops) = (some 0, some x) ∷ spec size room q ops

-- No sequence of pushes and pulls tells a ring of `room + 1` whole elements, from any queue that
-- it holds on, from the bounded queue of at most `room` elements: every returned number and every
-- element read is the queue's.
pub run_refines :
    (ops : List Op) {i : BufferInfo} {m : Mem} {room h : ℕ} {q : List Element}
    → Holds i m (suc room) h q
    → run i m ops ≡ spec i.element_length room q ops
unfolding run spec
run_refines [] v = refl
run_refines (push p ∷ ops) {i} {m} {room} {h} {q} v = elim (ℕ_discrete (length q) room) [
  | yes e ↦ rw (push_full v p (ap suc e)) (ground (arith, run_refines ops v))
  | no ne ↦ ground (arith, pushed ne, run_refines ops (pushed ne).0, element_length-push i m p)
]
  where
    pushed :
        length q ≢ room
        → let r = push_circle_buff_item i m p in
          Holds r.info r.buff (suc room) h (q ++ (bytes p 0 i.element_length ∷ []))
          × (r.result ≡ some i.element_length)
    pushed ne = push_lem v p (let f = v.fits in omega arith)
run_refines (pull ∷ ops) {q = []} v =
    rw (pull_empty zeroed v) (ap (λ (l : List Reply). (none, none) ∷ l) (run_refines ops v))
run_refines (pull ∷ ops) {i} {m} {q = x ∷ q} v = ground (
  arith,
  pull_lem zeroed v,
  run_refines ops (pull_lem zeroed v).0,
  element_length-pull i m zeroed,
)
