-- ===== src/Buffer/Copy.antt =====
-- The five ways in which the bundle operations of buffer_manager.c lay the bytes from `ir` to `iw`
-- of a ring of `l` bytes down from offset `ow` of a ring of `c` bytes.
use virtual_force.Prelude.{ℕ, ◌+◌, ◌-◌, ◌≤◌, ◌<◌, ◌≡◌, ◌⊎◌, arith, ltb, leb, if◌then◌else◌}
use virtual_force.Memory.{Mem, memcpy}

-- Offset `a` lies `k` behind offset `p` in a ring of `l` bytes.
abbrev pub Behind : ℕ → ℕ → ℕ → ℕ → Type 0
Behind l p k a = ((p + k < l) × (a ≡ p + k)) ⊎ ((l ≤ p + k) × (a + l ≡ p + k))

-- how many bytes lie from `ir` to `iw`, a whole turn if the two are one
abbrev pub turn : ℕ → ℕ → ℕ → ℕ
turn l ir iw = if ltb ir iw then iw - ir else l - ir + iw

module _ (dst src : Mem) (c ow l ir iw : ℕ) where
  abbrev pub room : ℕ
  room = c - ow

  abbrev pub part : ℕ
  part = l - ir

  unfoldable pub straight : Mem
  straight = memcpy dst ow src ir (iw - ir)

  unfoldable pub broken : Mem
  broken = memcpy (memcpy dst ow src ir room) 0 src (ir + room) (iw - ir - room)

  unfoldable pub joined : Mem
  joined = memcpy (memcpy dst ow src ir part) (ow + part) src 0 iw

  unfoldable pub joined_broken : Mem
  joined_broken =
      memcpy (memcpy (memcpy dst ow src ir part) (ow + part) src 0 (room - part)) 0 src
        (room - part) (part + iw - room)

  unfoldable pub broken_joined : Mem
  broken_joined =
      memcpy (memcpy (memcpy dst ow src ir room) 0 src (ir + room) (part - room)) (part - room) src
        0 iw

  -- the choice between them
  unfoldable pub lay : Mem
  lay =
      if ltb ir iw
      then (if ltb (iw - ir) room then straight else broken)
      else if leb (part + iw) room
      then joined
      else if leb part room
      then joined_broken
      else if ltb room part
      then broken_joined
      else dst

  module _ (in_c : ow < c) (in_l : ir < l) (in_w : iw < l) where
    -- What byte `a` of the destination is, if it is byte `k` behind `ow`.
    module _ (k a b : ℕ) (ha : Behind c ow k a) (hb : Behind l ir k b) where
      straight-at : iw - ir < room → k < iw - ir → straight a ≡ src b
      unfolding straight
      straight-at t lt = ground arith

      broken-at : iw - ir ≤ c → room ≤ iw - ir → k < iw - ir → broken a ≡ src b
      unfolding broken
      broken-at f t lt = ground arith

      joined-at : iw ≤ ir → part + iw ≤ room → k < part + iw → joined a ≡ src b
      unfolding joined
      joined-at w t lt = ground arith

      joined_broken-at :
          iw ≤ ir
          → part + iw ≤ c
          → room < part + iw
          → part ≤ room
          → k < part + iw
          → joined_broken a ≡ src b
      unfolding joined_broken
      joined_broken-at w f t u lt = ground arith

      broken_joined-at :
          iw ≤ ir → part + iw ≤ c → room < part → k < part + iw → broken_joined a ≡ src b
      unfolding broken_joined
      broken_joined-at w f t lt = ground arith

      pub lay-at : turn l ir iw ≤ c → k < turn l ir iw → lay a ≡ src b
      unfolding lay
      lay-at f lt =
          ground (arith, straight-at, broken-at, joined-at, joined_broken-at, broken_joined-at)

    -- A byte that lies the length of the bundle or more behind `ow` stays.
    module _ (k a : ℕ) (ha : Behind c ow k a) (lt : k < c) where
      straight-outside : iw - ir < room → iw - ir ≤ k → straight a ≡ dst a
      unfolding straight
      straight-outside t out = ground arith

      broken-outside : room ≤ iw - ir → iw - ir ≤ k → broken a ≡ dst a
      unfolding broken
      broken-outside t out = ground arith

      joined-outside : part + iw ≤ room → part + iw ≤ k → joined a ≡ dst a
      unfolding joined
      joined-outside t out = ground arith

      joined_broken-outside :
          room < part + iw → part ≤ room → part + iw ≤ k → joined_broken a ≡ dst a
      unfolding joined_broken
      joined_broken-outside t u out = ground arith

      broken_joined-outside : room < part → part + iw ≤ k → broken_joined a ≡ dst a
      unfolding broken_joined
      broken_joined-outside t out = ground arith

      pub lay-outside : turn l ir iw ≤ k → lay a ≡ dst a
      unfolding lay
      lay-outside out = ground (
        arith, straight-outside, broken-outside, joined-outside, joined_broken-outside,
        broken_joined-outside,
      )
