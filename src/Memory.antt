-- ===== src/Memory.antt =====
-- C byte memory behind one pointer: the byte at each offset, and the string.h calls that the
-- program makes on it. Offsets past the end of an array are the bytes that follow it in its struct.
use virtual_force.Prelude.{
  ℕ, zero, suc, ◌+◌, ◌-◌, ◌≤◌, ◌<◌, ◌≡◌, refl, ap₂, ◌⊎◌, ◌&&◌, List, [], ◌∷◌, arith, ltb, leb,
  if◌then◌else◌, length,
}

abbrev pub Mem : Type 0
Mem = ℕ → ℕ

-- `memcpy(dst + d, src + s, n)`
abbrev pub memcpy : Mem → ℕ → Mem → ℕ → ℕ → Mem
memcpy dst d src s n i = if leb d i && ltb i (d + n) then src (s + (i - d)) else dst i

-- `bzero`, or an initialiser `{0}`: zero bytes
abbrev pub zeroed : Mem
zeroed i = 0

-- the `n` bytes from offset `s` on
unfoldable pub bytes : Mem → ℕ → ℕ → List ℕ
bytes m s zero = []
bytes m s (suc n) = m s ∷ bytes m (s + 1) n

pub length-bytes : (m : Mem) (s n : ℕ) → length (bytes m s n) ≡ n
unfolding bytes
length-bytes m s zero = refl
length-bytes m s (suc n) = omega (arith, length-bytes m (s + 1) n)

-- Two memories with the same bytes in two ranges have the same list of bytes there.
pub bytes-ext :
    (m m' : Mem) (s s' n : ℕ)
    → ((k : ℕ) → k < n → m (s + k) ≡ m' (s' + k))
    → bytes m s n ≡ bytes m' s' n
unfolding bytes
bytes-ext m m' s s' zero h = refl
bytes-ext m m' s s' (suc n) h =
    ap₂ ◌∷◌ (ground (arith, h 0))
      (bytes-ext m m' (s + 1) (s' + 1) n (λ k lt. ground (arith, h (k + 1))))

-- What `memcpy` wrote is what it read.
pub bytes-memcpy_self :
    (dst src : Mem) (d s n : ℕ) → bytes (memcpy dst d src s n) d n ≡ bytes src s n
bytes-memcpy_self dst src d s n = bytes-ext (memcpy dst d src s n) src d s n (λ k lt. ground arith)

-- A range that the copy does not meet keeps its bytes.
pub bytes-memcpy_disjoint :
    (dst src : Mem) (d s n p k : ℕ)
    → (p + k ≤ d) ⊎ (d + n ≤ p)
    → bytes (memcpy dst d src s n) p k ≡ bytes dst p k
bytes-memcpy_disjoint dst src d s n p k h =
    bytes-ext (memcpy dst d src s n) dst p p k (λ j lt. ground arith)
