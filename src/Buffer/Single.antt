-- ===== src/Buffer/Single.antt =====
-- One element in flight: an empty ring of buffer_manager.c, of any length that is larger than an
-- element, and the element that is pushed next.
use virtual_force.Prelude.{ℕ, ◌+◌, ◌%◌, ◌<◌, ◌≡◌, ◌≢◌, refl, arith, some, false, ◌==◌}
use virtual_force.Memory.{Mem}
use virtual_force.Buffer.{
  BufferInfo, is_buff_full, is_buff_empty, push_circle_buff_item, pull_circle_buff_item,
}
use virtual_force.Buffer.Stream.{wrap_lem}

-- An empty ring, larger than an element.
pub record IsIdle (i : BufferInfo) : Type 0 where
  pub empty : i.tail_index_offset ≡ i.head_index_offset
  pub head_in : i.head_index_offset < i.buff_length
  pub element_pos : 0 < i.element_length
  pub element_in : i.element_length < i.buff_length

-- the offset one element on
abbrev pub advanced : BufferInfo → ℕ
advanced i = (i.head_index_offset + i.element_length) % i.buff_length

abbrev pub moved : BufferInfo → BufferInfo
moved i = record i { tail_index_offset = advanced i; head_index_offset = advanced i }

module _ {i : BufferInfo} (v : IsIdle i) where
  advanced-ne : advanced i ≢ i.head_index_offset
  advanced-ne e = ground (arith, wrap_lem (i.head_index_offset + i.element_length) i.buff_length)

  pub not_full : is_buff_full i ≡ false
  unfolding is_buff_full
  not_full = ground (arith, advanced-ne)

  pub moved-IsIdle : IsIdle (moved i)
  moved-IsIdle = ground arith

  -- On an empty ring, in range and longer than an element: a push succeeds, the pull after it gives
  -- the pushed bytes, and the ring is empty again, one element further on.
  pub pull-push :
      (m p q : Mem)
      → let r = push_circle_buff_item i m p in
        let t = pull_circle_buff_item r.info r.buff q in
        (r.result ≡ some i.element_length)
        × (is_buff_empty r.info ≡ false)
        × (t.result ≡ some 0)
        × (t.info ≡ moved i)
        × ((k : ℕ) → k < i.element_length → t.out k ≡ p k)
  unfolding push_circle_buff_item pull_circle_buff_item is_buff_empty
  pull-push m p q = rw (not_full, busy) (refl, refl, refl, ground arith, λ k lt. ground arith)
    where
      busy :
          ((i.tail_index_offset + i.element_length) % i.buff_length == i.head_index_offset) ≡ false
      busy = ground (arith, advanced-ne)

  -- The element lies from the old head on.
  pub stored_at :
      (m p : Mem) (k : ℕ)
      → k < i.element_length
      → (push_circle_buff_item i m p).buff (i.head_index_offset + k) ≡ p k
  unfolding push_circle_buff_item
  stored_at m p k lt = rw not_full (ground arith)
