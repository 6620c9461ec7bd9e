-- ===== src/Buffer/Stream.antt =====
-- The bytes that a ring of buffer_manager.c holds, in order, from its head to its tail.
use virtual_force.Prelude.{
  ℕ, zero, suc, ◌+◌, ◌-◌, ◌%◌, ◌≤◌, ◌<◌, ◌≡◌, refl, ◌⊎◌, inl, inr, dec_lt, ap, ap₂, List, [], ◌∷◌,
  ◌++◌, arith, leb, if◌then◌else◌,
}
use native.Mathlib.Nat.{mod-eq_of_lt, mod-eq-sub-mod}
use virtual_force.Memory.{Mem}
use virtual_force.Buffer.{BufferInfo}
use virtual_force.Buffer.Blocks.{next, ahead, ahead_lem}

-- the `n` bytes from offset `p` on, going round at `l`
pub stream : Mem → ℕ → ℕ → ℕ → List ℕ
stream m l p zero = []
stream m l p (suc n) = m p ∷ stream m l (next l p) n

-- how many bytes lie between the head and the tail
abbrev pub used : BufferInfo → ℕ
used i =
    if leb i.head_index_offset i.tail_index_offset
    then i.tail_index_offset - i.head_index_offset
    else i.tail_index_offset + i.buff_length - i.head_index_offset

-- the bytes that the ring holds
abbrev pub contents : BufferInfo → Mem → List ℕ
contents i m = stream m i.buff_length i.head_index_offset (used i)

pub stream-append :
    (m : Mem) (l p a b : ℕ) → stream m l p (a + b) ≡ stream m l p a ++ stream m l (ahead l p a) b
unfolding stream ahead
stream-append m l p zero b = ap (stream m l p) (omega arith)
stream-append m l p (suc a) b =
    let e : suc a + b ≡ suc (a + b) = omega arith in
    rw e (ap (λ (t : List ℕ). m p ∷ t) (stream-append m l (next l p) a b))

pub stream-ext :
    (m m' : Mem) (l l' p p' n : ℕ)
    → ((k : ℕ) → k < n → m (ahead l p k) ≡ m' (ahead l' p' k))
    → stream m l p n ≡ stream m' l' p' n
unfolding stream ahead
stream-ext m m' l l' p p' zero h = refl
stream-ext m m' l l' p p' (suc n) h =
    ap₂ ◌∷◌ (h 0 (omega arith))
      (stream-ext m m' l l' (next l p) (next l' p') n (λ k lt. h (suc k) (omega arith)))

-- The tail is as far ahead of the head as the ring holds bytes.
pub ahead-used :
    (i : BufferInfo)
    → i.head_index_offset < i.buff_length
    → i.tail_index_offset < i.buff_length
    → ahead i.buff_length i.head_index_offset (used i) ≡ i.tail_index_offset
ahead-used i h t = ground (arith, ahead_lem i.buff_length i.head_index_offset (used i))

pub ahead-add : (l p a b : ℕ) → ahead l p (a + b) ≡ ahead l (ahead l p a) b
unfolding ahead
ahead-add l p zero b = let e : 0 + b ≡ b = omega arith in rw e
ahead-add l p (suc a) b =
    let e : suc a + b ≡ suc (a + b) = omega arith in rw e (ahead-add l (next l p) a b)

-- What a sum of less than two turns is modulo one.
pub wrap_lem : (x n : ℕ) → x < n + n → ((x < n) × (x % n ≡ x)) ⊎ ((n ≤ x) × (x % n + n ≡ x))
wrap_lem x n h = elim (dec_lt x n) [
  | yes p ↦ inl (p, mod-eq_of_lt p)
  | no p ↦ inr (
    omega arith,
    omega (
      arith,
      mod-eq-sub-mod {n = x} {m = n} (omega arith),
      mod-eq_of_lt {n = x - n} {m = n} (omega arith),
    ),
  )
]

-- Moving the tail on by `n` free bytes adds them to the bytes that the ring holds.
pub used-add :
    (i : BufferInfo) (n : ℕ)
    → i.head_index_offset < i.buff_length
    → i.tail_index_offset < i.buff_length
    → used i + n < i.buff_length
    → used (record i { tail_index_offset = (i.tail_index_offset + n) % i.buff_length }) ≡ used i + n
used-add i n h t f = ground (arith, wrap_lem (i.tail_index_offset + n) i.buff_length)

pub contents-empty :
    (i : BufferInfo) (m : Mem) → i.tail_index_offset ≡ i.head_index_offset → contents i m ≡ []
unfolding stream
contents-empty i m e = let u : used i ≡ 0 = ground arith in rw u
