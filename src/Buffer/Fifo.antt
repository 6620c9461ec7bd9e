-- ===== src/Buffer/Fifo.antt =====
-- The item operations of buffer_manager.c as operations on a queue, on a ring whose length is a
-- whole number of elements and whose head stands at the start of one.
use virtual_force.Prelude.{
  ℕ, zero, suc, ◌+◌, ◌*◌, ◌%◌, ◌<◌, ◌≡◌, ◌≢◌, refl, sym, ap, ◌∙◌, List, [], ◌∷◌, ◌++◌, arith, none,
  some, false, length, length-append, ◌==◌, ℕ_discrete,
}
use virtual_force.Memory.{Mem, memcpy, bytes, bytes-memcpy_self, bytes-memcpy_disjoint}
use virtual_force.Buffer.{
  BufferInfo, is_buff_full, is_buff_empty, push_circle_buff_item, pull_circle_buff_item,
}
use virtual_force.Buffer.Blocks.{
  next, ahead, ahead-lt, ahead-ne, ahead_snoc, ahead_round, next-offset, block_disjoint,
  offset-injective,
}

-- An element as the bytes that were pushed.
abbrev pub Element : Type 0
Element = List ℕ

-- From block `h` on, the ring of `n` blocks of `e` bytes holds these elements.
abbrev pub Blocks : ℕ → ℕ → Mem → ℕ → List Element → Type 0
Blocks e n m h [] = Unit {0}
Blocks e n m h (x ∷ q) = (bytes m (e * h) e ≡ x) × Blocks e n m (next n h) q

-- Writing the free block behind the last element appends an element.
Blocks-memcpy :
    (e n : ℕ) (m p : Mem) (h : ℕ) (q : List Element)
    → h < n
    → length q < n
    → Blocks e n m h q
    → Blocks e n (memcpy m (e * ahead n h (length q)) p 0 e) h (q ++ (bytes p 0 e ∷ []))
unfolding ahead
Blocks-memcpy e n m p h [] hn fits b = (bytes-memcpy_self m p (e * h) 0 e, tt)
Blocks-memcpy e n m p h (x ∷ q) hn fits b = (
  bytes-memcpy_disjoint m p t 0 e (e * h) e (block_disjoint e h (ahead n h (suc (length q))) apart)
      ∙ b.0,
  Blocks-memcpy e n m p (next n h) q (omega arith) (omega arith) b.1,
)
  where
    t : ℕ
    t = e * ahead n h (suc (length q))

    apart : h ≢ ahead n h (suc (length q))
    apart c = ahead-ne n h (length q) hn fits (sym c)

-- An offset is that of the head again only at the head.
head_offset : (e n h k : ℕ) → 0 < e → h < n → k < n → (e * ahead n h k == e * h) ≡ (k == 0)
unfolding ahead
head_offset e n h zero pe hn kn = ground arith
head_offset e n h (suc k) pe hn kn =
    ground (arith, ahead-ne n h k hn kn, offset-injective e (ahead n h (suc k)) h pe)

-- The ring of `n` blocks with its head at block `h` holds the queue `q`, oldest element first.
pub record Holds (i : BufferInfo) (m : Mem) (n h : ℕ) (q : List Element) : Type 0 where
  pub length_at : i.buff_length ≡ i.element_length * n
  pub element_pos : 0 < i.element_length
  pub block_in : h < n
  pub head_at : i.head_index_offset ≡ i.element_length * h
  pub tail_at : i.tail_index_offset ≡ i.element_length * ahead n h (length q)
  pub fits : length q < n
  pub stored : Blocks i.element_length n m h q

module _ {i : BufferInfo} {m : Mem} {n h : ℕ} {q : List Element} (v : Holds i m n h q) where
  open v use {length_at, element_pos, block_in, head_at, tail_at, fits, stored}

  next_tail :
      (i.tail_index_offset + i.element_length) % i.buff_length
      ≡ i.element_length * ahead n h (suc (length q))
  next_tail =
      rw (tail_at, length_at, ahead_snoc n h (length q))
        (next-offset i.element_length n (ahead n h (length q)) element_pos
          (ahead-lt n h (length q) block_in))

  -- One block always stays free.
  pub full_lem : is_buff_full i ≡ (suc (length q) == n)
  unfolding is_buff_full
  full_lem =
      rw (next_tail, head_at)
        (elim (ℕ_discrete (suc (length q)) n) [
          | yes e ↦ ground (arith, ahead_round n h (length q) block_in e)
          | no e ↦ ground (
            arith,
            ahead-ne n h (length q) block_in (omega arith),
            offset-injective i.element_length (ahead n h (suc (length q))) h element_pos,
          )
        ])

  pub empty_lem : is_buff_empty i ≡ (length q == 0)
  unfolding is_buff_empty
  empty_lem =
      rw (tail_at, head_at) (head_offset i.element_length n h (length q) element_pos block_in fits)

  -- With a block to spare, a push appends the bytes at its pointer.
  pub push_lem :
      (p : Mem)
      → suc (length q) < n
      → let r = push_circle_buff_item i m p in
        Holds r.info r.buff n h (q ++ (bytes p 0 i.element_length ∷ []))
        × (r.result ≡ some i.element_length)
  unfolding push_circle_buff_item
  push_lem p room =
      rw (full_lem, spare)
        (
          record {
            length_at = length_at;
            element_pos = element_pos;
            block_in = block_in;
            head_at = head_at;
            tail_at = next_tail ∙ ap (λ (k : ℕ). i.element_length * ahead n h k) (sym grown);
            fits = rw grown room;
            stored = rw tail_at (Blocks-memcpy i.element_length n m p h q block_in fits stored);
          },
          refl,
        )
    where
      spare : (suc (length q) == n) ≡ false
      spare = ground arith

      grown : length (q ++ (bytes p 0 i.element_length ∷ [])) ≡ suc (length q)
      grown = omega (arith, length-append q (bytes p 0 i.element_length ∷ []))

  -- With no block to spare, a push returns -1 and changes nothing.
  pub push_full :
      (p : Mem)
      → suc (length q) ≡ n
      → push_circle_buff_item i m p ≡ record { info = i; buff = m; result = none }
  unfolding push_circle_buff_item
  push_full p e = ground (arith, full_lem)

-- A pull takes the bytes of the oldest element and leaves the rest.
pub pull_lem :
    {i : BufferInfo} {m : Mem} {n h : ℕ} {x : Element} {q : List Element} (p : Mem)
    → Holds i m n h (x ∷ q)
    → let r = pull_circle_buff_item i m p in
      Holds r.info m n (next n h) q × (bytes r.out 0 i.element_length ≡ x) × (r.result ≡ some 0)
unfolding pull_circle_buff_item ahead
pull_lem {i} {m} {n} {h} {x} {q} p v =
    rw (empty_lem v, busy)
      (
        record {
          length_at = v.length_at;
          element_pos = v.element_pos;
          block_in = next-lt;
          head_at =
              rw (v.head_at, v.length_at)
                (next-offset i.element_length n h v.element_pos v.block_in);
          tail_at = v.tail_at;
          fits = omega arith;
          stored = v.stored.1;
        },
        rw v.head_at (bytes-memcpy_self p m 0 (i.element_length * h) i.element_length ∙ v.stored.0),
        refl,
      )
  where
    busy : (length (x ∷ q) == 0) ≡ false
    busy = ground arith

    next-lt : next n h < n
    next-lt = let b = v.block_in in omega arith

-- On an empty ring a pull returns -1 and changes nothing, the memory at its pointer included.
pub pull_empty :
    {i : BufferInfo} {m : Mem} {n h : ℕ} (p : Mem)
    → Holds i m n h []
    → pull_circle_buff_item i m p ≡ record { info = i; out = p; result = none }
unfolding pull_circle_buff_item
pull_empty p v = rw (empty_lem v)

pub element_length-push :
    (i : BufferInfo) (m p : Mem)
    → (push_circle_buff_item i m p).info.element_length ≡ i.element_length
unfolding push_circle_buff_item
element_length-push i m p = ground arith

pub element_length-pull :
    (i : BufferInfo) (m p : Mem)
    → (pull_circle_buff_item i m p).info.element_length ≡ i.element_length
unfolding pull_circle_buff_item
element_length-pull i m p = ground arith
