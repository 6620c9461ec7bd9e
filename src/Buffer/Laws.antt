-- ===== src/Buffer/Laws.antt =====
-- What a client of the item operations of buffer_manager.c relies on, as an interface, and the rings
-- that keep it.
use virtual_force.Prelude.{
  ℕ, suc, ◌+◌, ◌≤◌, ◌<◌, ◌≡◌, sym, ap, ◌∙◌, arith, true, false, List, [], ◌∷◌, ◌++◌, length,
}
use virtual_force.Memory.{Mem, bytes}
use virtual_force.Buffer.{
  BufferInfo, is_buff_full, is_buff_empty, push_circle_buff_item, pull_circle_buff_item,
}
use virtual_force.Buffer.Fifo.{
  Element, Holds, push_lem, pull_lem, full_lem, empty_lem, element_length-push, element_length-pull,
}

-- That a ring keeps a queue of elements of `size` bytes: `Keeps i m q` says which. A push to a ring that
-- is not full, of bytes that stay in the first `room` bytes, appends its bytes; a pull takes the
-- oldest element; an empty queue is seen as such.
pub record QueueLaws (size room : ℕ) (Keeps : BufferInfo → Mem → List Element → Type 0)
    : Type 0 where
  pub pushes :
      {i : BufferInfo} {m : Mem} {q : List Element} (p : Mem)
      → Keeps i m q
      → is_buff_full i ≡ false
      → i.tail_index_offset + i.element_length ≤ room
      → let r = push_circle_buff_item i m p in Keeps r.info r.buff (q ++ (bytes p 0 size ∷ []))
  pub pulls :
      {i : BufferInfo} {m : Mem} {x : Element} {q : List Element} (p : Mem)
      → Keeps i m (x ∷ q)
      → let r = pull_circle_buff_item i m p in Keeps r.info m q × (bytes r.out 0 size ≡ x)
  pub empties : {i : BufferInfo} {m : Mem} → Keeps i m [] → is_buff_empty i ≡ true

-- A ring of `n` whole elements of `size` bytes, with its head anywhere.
pub record KeepsWhole (size n : ℕ) (i : BufferInfo) (m : Mem) (q : List Element) : Type 0 where
  pub head : ℕ
  pub element_length_at : i.element_length ≡ size
  pub holds : Holds i m n head q

pub whole-QueueLaws : (size room n : ℕ) → QueueLaws size room (KeepsWhole size n)
whole-QueueLaws size room n = record {
  pushes = λ {i} {m} {q} p v spare_one inside.
      let spare : suc (length q) < n = ground (arith, full_lem v.holds, v.holds.fits, spare_one) in
      record {
        head = v.head;
        element_length_at = element_length-push i m p ∙ v.element_length_at;
        holds =
            rw (ap (λ (k : ℕ). bytes p 0 k) v.element_length_at) at (push_lem v.holds p spare).0;
      };
  pulls = λ {i} {m} {x} {q} p v.
      let (h, out, _) = pull_lem p v.holds in
      (
        record {
          head = _;
          element_length_at = element_length-pull i m p ∙ v.element_length_at;
          holds = h;
        },
        sym (ap (λ (k : ℕ). bytes (pull_circle_buff_item i m p).out 0 k) v.element_length_at) ∙ out,
      );
  empties = λ {i} {m} v. empty_lem v.holds;
}
