-- ===== src/Buffer/Moves.antt =====
-- Two rings of VirtualForce_linux/buffer_manager.c over any moves of items and bundles.
use virtual_force.Prelude.{◌+◌, ◌^◌, ◌<◌, arith, List, [], ◌∷◌}
use virtual_force.Memory.{Mem}
use virtual_force.Buffer.{
  BufferInfo, push_circle_buff_item, pull_circle_buff_item, push_circle_buff_bundle,
  pull_circle_buff_bundle,
}
use virtual_force.Buffer.Inv.{IsValid, item-IsValid, bundle-IsValid}

-- a circle ring and a local ring, with their bytes
pub record Rings : Type 0 where
  pub circle_info : BufferInfo
  pub circle : Mem
  pub local_info : BufferInfo
  pub local : Mem

-- A call: of an item to or from the local ring, with the memory at its pointer, or of a bundle between
-- the two.
pub data Move : Type 0 where
  push_item : Mem → Move
  pull_item : Mem → Move
  push_bundle : Move
  pull_bundle : Move

pub do_move : Move → Rings → Rings
do_move (push_item p) s =
    let r = push_circle_buff_item s.local_info s.local p in
    record s { local_info = r.info; local = r.buff }
do_move (pull_item p) s =
    let r = pull_circle_buff_item s.local_info s.local p in record s { local_info = r.info }
do_move push_bundle s =
    let r = push_circle_buff_bundle s.circle_info s.circle s.local_info s.local in
    record {
      circle_info = r.circle_info;
      circle = r.circle;
      local_info = r.local_info;
      local = r.local;
    }
do_move pull_bundle s =
    let r = pull_circle_buff_bundle s.circle_info s.circle s.local_info s.local in
    record {
      circle_info = r.circle_info;
      circle = r.circle;
      local_info = r.local_info;
      local = r.local;
    }

pub do_moves : List Move → Rings → Rings
do_moves [] s = s
do_moves (m ∷ ms) s = do_moves ms (do_move m s)

abbrev pub AreValid : Rings → Type 0
AreValid s = IsValid s.circle_info × IsValid s.local_info

do_move-AreValid : (m : Move) (s : Rings) → AreValid s → AreValid (do_move m s)
unfolding do_move
do_move-AreValid (push_item p) s v = (v.0, (item-IsValid s.local p v.1).0)
do_move-AreValid (pull_item p) s v = (v.0, (item-IsValid s.local p v.1).1)
do_move-AreValid push_bundle s v =
    let (a, b, _, _) = bundle-IsValid s.circle s.local v.0 v.1 in (a, b)
do_move-AreValid pull_bundle s v =
    let (_, _, c, d) = bundle-IsValid s.circle s.local v.0 v.1 in (c, d)

do_moves-AreValid : (ms : List Move) (s : Rings) → AreValid s → AreValid (do_moves ms s)
unfolding do_moves
do_moves-AreValid [] s v = v
do_moves-AreValid (m ∷ ms) s v = do_moves-AreValid ms (do_move m s) (do_move-AreValid m s v)

-- Whatever items and bundles are moved, in any order, and whether or not each move succeeds, two rings
-- that are valid stay valid, so that their offsets stay in the rings; and then no offset that the next
-- move forms leaves `int32_t`: that behind an item at the tail or the head of a ring, and that behind
-- a bundle, which is at most as long as the ring that it comes from.
pub moves_in_range :
    (ms : List Move) (s : Rings)
    → AreValid s
    → let t = do_moves ms s in
      let c = t.circle_info in
      let l = t.local_info in
      AreValid t
      × (c.tail_index_offset + c.element_length < 2 ^ 31)
      × (c.head_index_offset + c.element_length < 2 ^ 31)
      × (l.tail_index_offset + l.element_length < 2 ^ 31)
      × (l.head_index_offset + l.element_length < 2 ^ 31)
      × (c.tail_index_offset + l.buff_length < 2 ^ 31)
      × (l.tail_index_offset + c.buff_length < 2 ^ 31)
moves_in_range ms s v =
    let w = do_moves-AreValid ms s v in
    let (c, l) = w in
    (
      w,
      omega (arith, c.tail_in, c.element_in, c.small),
      omega (arith, c.head_in, c.element_in, c.small),
      omega (arith, l.tail_in, l.element_in, l.small),
      omega (arith, l.head_in, l.element_in, l.small),
      omega (arith, c.tail_in, c.small, l.small),
      omega (arith, l.tail_in, c.small, l.small),
    )
