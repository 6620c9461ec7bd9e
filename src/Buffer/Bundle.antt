-- ===== src/Buffer/Bundle.antt =====
-- The bundle operations of buffer_manager.c as moves of sequences of bytes from one ring to
-- another.
use virtual_force.Prelude.{
  ℕ, ◌+◌, ◌-◌, ◌%◌, ◌<◌, ◌≡◌, ◌≢◌, refl, ap, ap₂, ◌∙◌, ◌++◌, arith, ltb, if◌then◌else◌, some, true,
  false, inl, inr, Bool-cases, ◌↔◌, ==_iff, sym, Option,
}
use virtual_force.Memory.{Mem}
use virtual_force.Buffer.{
  BufferInfo, is_buff_empty, push_circle_buff_bundle, pull_circle_buff_bundle,
}
use virtual_force.Buffer.Inv.{IsValid}
use virtual_force.Buffer.Blocks.{ahead, ahead_lem}
use virtual_force.Buffer.Copy.{
  Behind, turn, lay, straight, broken, joined, joined_broken, broken_joined, lay-at, lay-outside,
}
use virtual_force.Buffer.Stream.{
  stream, used, contents, stream-append, stream-ext, ahead-used, used-add, contents-empty,
}
use mathlib.Core.List.{append-nil}

empty_iff :
    (i : BufferInfo) → (is_buff_empty i ≡ true) ↔ (i.tail_index_offset ≡ i.head_index_offset)
unfolding is_buff_empty
empty_iff i = ==_iff i.tail_index_offset i.head_index_offset

used-empty : (i : BufferInfo) → i.tail_index_offset ≡ i.head_index_offset → used i ≡ 0
used-empty i e = ground arith

-- The effect of a push of all bytes, with the five copies in one.
pub push_bundle-lay :
    (c l : BufferInfo) (circle local : Mem)
    → push_circle_buff_bundle c circle l local ≡ (
        let n = turn l.buff_length l.head_index_offset l.tail_index_offset in
        record {
          circle_info = record c { tail_index_offset = (c.tail_index_offset + n) % c.buff_length };
          circle =
              lay circle local c.buff_length c.tail_index_offset l.buff_length l.head_index_offset
                l.tail_index_offset;
          local_info = record l { head_index_offset = l.tail_index_offset };
          local = local;
          result = some n;
        })
unfolding push_circle_buff_bundle lay straight broken joined joined_broken broken_joined
push_bundle-lay c l circle local = elim (Bool-cases (ltb l.head_index_offset l.tail_index_offset)) [
  | inl e ↦ rw e
  | inr e ↦ rw e
]

-- The pull of all bytes is the push with the two rings exchanged, except that it tests for an empty
-- source first, returns 0 and then changes nothing.
pub pull_bundle-push :
    (c l : BufferInfo) (circle local : Mem)
    → pull_circle_buff_bundle c circle l local ≡ (
        if is_buff_empty c
        then record {
          circle_info = c;
          circle = circle;
          local_info = l;
          local = local;
          result = some 0;
        }
        else let r = push_circle_buff_bundle l local c circle in
          record {
            circle_info = r.local_info;
            circle = r.local;
            local_info = r.circle_info;
            local = r.circle;
            result = r.result;
          })
unfolding push_circle_buff_bundle pull_circle_buff_bundle
pull_bundle-push c l circle local = elim (Bool-cases (is_buff_empty c)) [
  | inl f ↦ rw f
  | inr f ↦ elim (Bool-cases (ltb c.head_index_offset c.tail_index_offset)) [
    | inl e ↦ rw (f, e)
    | inr e ↦ rw (f, e)
  ]
]

used-lt :
    (i : BufferInfo)
    → i.head_index_offset < i.buff_length
    → i.tail_index_offset < i.buff_length
    → used i < i.buff_length
used-lt i h t = ground arith

module _ {c l : BufferInfo} (circle local : Mem) (vc : IsValid c) (vl : IsValid l)
    (some_bytes : l.head_index_offset ≢ l.tail_index_offset)
    (room : used c + used l < c.buff_length) where
  after : Mem
  after =
      lay circle local c.buff_length c.tail_index_offset l.buff_length l.head_index_offset
        l.tail_index_offset

  turn-used : turn l.buff_length l.head_index_offset l.tail_index_offset ≡ used l
  turn-used = ground arith

  -- Byte `k` behind the old tail is byte `k` of the local ring.
  written :
      (k : ℕ)
      → k < used l
      → after (ahead c.buff_length c.tail_index_offset k)
        ≡ local (ahead l.buff_length l.head_index_offset k)
  unfolding after
  written k lt =
      lay-at circle local c.buff_length c.tail_index_offset l.buff_length l.head_index_offset
        l.tail_index_offset vc.tail_in vl.head_in vl.tail_in k _ _
        (ahead_lem c.buff_length c.tail_index_offset k vc.tail_in (omega arith))
        (ahead_lem l.buff_length l.head_index_offset k vl.head_in
          (omega (arith, used-lt l vl.head_in vl.tail_in)))
        (omega (arith, turn-used)) (omega (arith, turn-used))

  -- The bytes that the circle ring held stay.
  kept :
      (k : ℕ)
      → k < used c
      → after (ahead c.buff_length c.head_index_offset k)
        ≡ circle (ahead c.buff_length c.head_index_offset k)
  unfolding after
  kept k lt =
      lay-outside circle local c.buff_length c.tail_index_offset l.buff_length l.head_index_offset
        l.tail_index_offset vc.tail_in vl.head_in vl.tail_in (c.buff_length - used c + k)
        (ahead c.buff_length c.head_index_offset k) behind
        (omega (arith, used-lt c vc.head_in vc.tail_in)) (omega (arith, turn-used))
    where
      behind :
          Behind c.buff_length c.tail_index_offset
            (c.buff_length - used c + k)
            (ahead c.buff_length c.head_index_offset k)
      behind = ground (arith, ahead_lem c.buff_length c.head_index_offset k)

  stream-after :
      stream after c.buff_length c.head_index_offset (used c + used l)
      ≡ contents c circle ++ contents l local
  stream-after =
      stream-append after c.buff_length c.head_index_offset (used c) (used l)
      ∙ ap₂ ◌++◌
          (stream-ext after circle c.buff_length c.buff_length c.head_index_offset
            c.head_index_offset (used c) kept)
          (rw (ahead-used c vc.head_in vc.tail_in) (
            stream-ext after local c.buff_length l.buff_length c.tail_index_offset
              l.head_index_offset (used l) written))

  -- On control blocks in range, with room for them, pushing all bytes of a ring that is not empty
  -- appends its contents to those of the circle ring, empties it, leaves its bytes alone, and
  -- returns how many were moved.
  pub push_bundle_lem :
      let r = push_circle_buff_bundle c circle l local in
      (contents r.circle_info r.circle ≡ contents c circle ++ contents l local)
      × (r.local_info ≡ record l { head_index_offset = l.tail_index_offset })
      × (r.local ≡ local)
      × (r.result ≡ some (used l))
  unfolding after
  push_bundle_lem =
      rw (push_bundle-lay c l circle local, turn-used)
        (rw (used-add c (used l) vc.head_in vc.tail_in room) stream-after, refl, refl, refl)

-- From an empty ring in range the two directions differ: a pull moves nothing and returns 0, but a
-- push moves the tail of the other ring on by the length of the empty one, and returns that length.
pub push_bundle_empty :
    (c : BufferInfo) {l : BufferInfo} (circle local : Mem)
    → IsValid l
    → is_buff_empty l ≡ true
    → let r = push_circle_buff_bundle c circle l local in
      let t = pull_circle_buff_bundle l local c circle in
      (r.result ≡ some l.buff_length)
      × (r.circle_info.tail_index_offset ≡ (c.tail_index_offset + l.buff_length) % c.buff_length)
      × (t.result ≡ some 0)
      × (t.local_info ≡ c)
      × (t.local ≡ circle)
unfolding push_circle_buff_bundle pull_circle_buff_bundle
push_bundle_empty c {l} circle local v e = ground (arith, (empty_iff l).0 e)

-- Pulling all bytes, on control blocks in range: an empty circle ring is left alone and 0
-- returned; otherwise, with room for them, its contents go to the end of the local ring, and it is
-- empty.
pub pull_bundle_lem :
    {c l : BufferInfo} (circle local : Mem)
    → IsValid c
    → IsValid l
    → used l + used c < l.buff_length
    → let r = pull_circle_buff_bundle c circle l local in
      (contents r.local_info r.local ≡ contents l local ++ contents c circle)
      × (is_buff_empty r.circle_info ≡ true)
      × (r.circle ≡ circle)
      × (r.result ≡ some (used c))
pull_bundle_lem {c} {l} circle local vc vl room = elim (Bool-cases (is_buff_empty c)) [
  | inl e ↦
      rw (pull_bundle-push c l circle local, e)
        (
          rw (contents-empty c circle ((empty_iff c).0 e), append-nil) refl,
          e,
          refl,
          ap {B = Option ℕ} some (sym (used-empty c ((empty_iff c).0 e))),
        )
  | inr f ↦
      let p = push_bundle_lem local circle vl vc (λ q. absurd (busy f q)) room in
      rw (pull_bundle-push c l circle local, f)
        (
          p.0,
          rw p.1 ((empty_iff (record c { head_index_offset = c.tail_index_offset })).1 refl),
          p.2,
          p.3,
        )
]
  where
    busy : is_buff_empty c ≡ false → c.head_index_offset ≢ c.tail_index_offset
    busy f q = let t = (empty_iff c).1 (sym q) in cc
