-- ===== src/Buffer.antt =====
-- VirtualForce_linux/buffer_manager.h and buffer_manager.c: a ring of bytes behind a control
-- block. A `buffer_info_t *` and a `void *` come in as values and go out changed. The offsets are
-- the nonnegative values of `int32_t`; `Inv` is about their ranges. The code divides by
-- `buff_length`, so a caller has it positive.
pub mod Inv
pub mod Moves
pub mod Blocks
pub mod Fifo
pub mod Laws
pub mod Queue
pub mod Stream
pub mod Copy
pub mod Bundle
pub mod Single
use virtual_force.Prelude.{
  ℕ, ◌+◌, ◌-◌, ◌%◌, Bool, Option, none, some, ltb, leb, ◌==◌, if◌then◌else◌,
}
use virtual_force.Memory.{Mem, memcpy}

-- `buffer_info_t`
pub record BufferInfo : Type 0 where
  pub tail_index_offset : ℕ
  pub head_index_offset : ℕ
  pub element_length : ℕ
  pub buff_length : ℕ
  pub safety_resevd : ℕ
  pub semaphore : ℕ
  pub write_lock : ℕ

-- `true` stands for the returned 1
unfoldable pub is_buff_full : BufferInfo → Bool
is_buff_full info =
    (info.tail_index_offset + info.element_length) % info.buff_length == info.head_index_offset

unfoldable pub is_buff_empty : BufferInfo → Bool
is_buff_empty info = info.tail_index_offset == info.head_index_offset

-- What a push leaves behind: the control block, the bytes of the ring, and the returned number,
-- `none` for -1.
pub record Pushed : Type 0 where
  pub info : BufferInfo
  pub buff : Mem
  pub result : Option ℕ

unfoldable pub push_circle_buff_item : BufferInfo → Mem → Mem → Pushed
push_circle_buff_item info buff push_ptr =
    if is_buff_full info then record { info = info; buff = buff; result = none } else record {
      info = record info {
        tail_index_offset = (info.tail_index_offset + info.element_length) % info.buff_length;
      };
      buff = memcpy buff info.tail_index_offset push_ptr 0 info.element_length;
      result = some info.element_length;
    }

-- What a pull leaves behind: the control block, the memory at `pull_ptr`, and the returned number.
pub record Pulled : Type 0 where
  pub info : BufferInfo
  pub out : Mem
  pub result : Option ℕ

unfoldable pub pull_circle_buff_item : BufferInfo → Mem → Mem → Pulled
pull_circle_buff_item info buff pull_ptr =
    if is_buff_empty info then record { info = info; out = pull_ptr; result = none } else record {
      info = record info {
        head_index_offset = (info.head_index_offset + info.element_length) % info.buff_length;
      };
      out = memcpy pull_ptr 0 buff info.head_index_offset info.element_length;
      result = some 0;
    }

-- What moving all bytes from one ring to another leaves behind.
pub record Moved : Type 0 where
  pub circle_info : BufferInfo
  pub circle : Mem
  pub local_info : BufferInfo
  pub local : Mem
  pub result : Option ℕ

-- The bytes of the local ring go to the end of the circle ring, `ir` to `iw` behind `ow`.
unfoldable pub push_circle_buff_bundle : BufferInfo → Mem → BufferInfo → Mem → Moved
push_circle_buff_bundle ci circle li local =
    let ir = li.head_index_offset in
    let iw = li.tail_index_offset in
    let ow = ci.tail_index_offset in
    let room = ci.buff_length - ow in
    let part = li.buff_length - ir in
    if ltb ir iw
    then record {
      circle_info = record ci { tail_index_offset = (ow + (iw - ir)) % ci.buff_length };
      circle =
          (if ltb (iw - ir) room
            then memcpy circle ow local ir (iw - ir)
            else memcpy (memcpy circle ow local ir room) 0 local (ir + room) (iw - ir - room));
      local_info = record li { head_index_offset = iw };
      local = local;
      result = some (iw - ir);
    }
    else record {
      circle_info = record ci { tail_index_offset = (ow + (part + iw)) % ci.buff_length };
      circle =
          (if leb (part + iw) room
            then memcpy (memcpy circle ow local ir part) (ow + part) local 0 iw
            else if leb part room
            then memcpy (memcpy (memcpy circle ow local ir part) (ow + part) local 0 (room - part))
                0 local (room - part) (part + iw - room)
            else if ltb room part
            then memcpy (memcpy (memcpy circle ow local ir room) 0 local (ir + room) (part - room))
                (part - room) local 0 iw
            else circle);
      local_info = record li { head_index_offset = iw };
      local = local;
      result = some (part + iw);
    }

-- The bytes of the circle ring go to the end of the local ring.
unfoldable pub pull_circle_buff_bundle : BufferInfo → Mem → BufferInfo → Mem → Moved
pull_circle_buff_bundle ci circle li local =
    let ir = ci.head_index_offset in
    let iw = ci.tail_index_offset in
    let ow = li.tail_index_offset in
    let room = li.buff_length - ow in
    let part = ci.buff_length - ir in
    if is_buff_empty ci
    then record {
      circle_info = ci;
      circle = circle;
      local_info = li;
      local = local;
      result = some 0;
    }
    else if ltb ir iw
    then record {
      circle_info = record ci { head_index_offset = iw };
      circle = circle;
      local_info = record li { tail_index_offset = (ow + (iw - ir)) % li.buff_length };
      local =
          (if ltb (iw - ir) room
            then memcpy local ow circle ir (iw - ir)
            else memcpy (memcpy local ow circle ir room) 0 circle (ir + room) (iw - ir - room));
      result = some (iw - ir);
    }
    else record {
      circle_info = record ci { head_index_offset = iw };
      circle = circle;
      local_info = record li { tail_index_offset = (ow + (part + iw)) % li.buff_length };
      local =
          (if leb (part + iw) room
            then memcpy (memcpy local ow circle ir part) (ow + part) circle 0 iw
            else if leb part room
            then memcpy (memcpy (memcpy local ow circle ir part) (ow + part) circle 0 (room - part))
                0 circle (room - part) (part + iw - room)
            else if ltb room part
            then memcpy (memcpy (memcpy local ow circle ir room) 0 circle (ir + room) (part - room))
                (part - room) circle 0 iw
            else local);
      result = some (part + iw);
    }
