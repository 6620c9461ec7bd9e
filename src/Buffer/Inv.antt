-- ===== src/Buffer/Inv.antt =====
-- The ranges of the control block of buffer_manager.c.
use virtual_force.Prelude.{ℕ, ◌≡◌, some, ◌+◌, ◌^◌, ◌≤◌, ◌<◌, arith}
use virtual_force.Memory.{Mem}
use virtual_force.Buffer.{
  BufferInfo, push_circle_buff_item, pull_circle_buff_item, push_circle_buff_bundle,
  pull_circle_buff_bundle,
}

-- Offsets inside the ring, an element smaller than the ring, and lengths of which two add up below
-- the largest `int32_t`.
pub record IsValid (i : BufferInfo) : Type 0 where
  pub head_in : i.head_index_offset < i.buff_length
  pub tail_in : i.tail_index_offset < i.buff_length
  pub element_pos : 0 < i.element_length
  pub element_in : i.element_length < i.buff_length
  pub small : i.buff_length ≤ 2 ^ 30

-- Pushing or pulling an item keeps a valid control block valid, whether or not it succeeds.
pub item-IsValid :
    {i : BufferInfo} (m p : Mem)
    → IsValid i
    → IsValid (push_circle_buff_item i m p).info × IsValid (pull_circle_buff_item i m p).info
unfolding push_circle_buff_item pull_circle_buff_item
item-IsValid m p v = ground arith

-- Moving all bytes either way keeps two valid control blocks valid.
pub bundle-IsValid :
    {c l : BufferInfo} (m n : Mem)
    → IsValid c
    → IsValid l
    → IsValid (push_circle_buff_bundle c m l n).circle_info
      × IsValid (push_circle_buff_bundle c m l n).local_info
      × IsValid (pull_circle_buff_bundle c m l n).circle_info
      × IsValid (pull_circle_buff_bundle c m l n).local_info
unfolding push_circle_buff_bundle pull_circle_buff_bundle
bundle-IsValid m n v w = ground arith

-- No sum that the code forms leaves `int32_t` on control blocks in range: the offset behind an item
-- at the tail or the head, and the offset behind the `n` bytes that a bundle moves.
pub no_overflow :
    {c l : BufferInfo} {n : ℕ} (m local : Mem)
    → IsValid c
    → IsValid l
    → (push_circle_buff_bundle c m l local).result ≡ some n
    → (c.tail_index_offset + c.element_length < 2 ^ 31)
      × (c.head_index_offset + c.element_length < 2 ^ 31)
      × (c.tail_index_offset + n < 2 ^ 31)
unfolding push_circle_buff_bundle
no_overflow m local v w e = ground arith
