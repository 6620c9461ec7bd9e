-- ===== src/Buffer/Blocks.antt =====
-- The blocks of a ring whose length is a whole number of elements: arithmetic that the item
-- operations of buffer_manager.c do by offsets, done by block numbers.
use virtual_force.Prelude.{
  ℕ, zero, suc, ◌+◌, ◌-◌, ◌*◌, ◌%◌, ◌≤◌, ◌<◌, ◌≡◌, ◌≢◌, refl, ap, ◌∙◌, ◌⊎◌, inl, inr, arith, dec_lt,
  ℕ_discrete,
}
use native.Mathlib.Nat.{mod-eq_of_lt, mod_self}

-- One block round a ring of `n` blocks.
abbrev pub next : ℕ → ℕ → ℕ
next n k = (k + 1) % n

-- The block that lies `d` blocks behind block `k`.
unfoldable pub ahead : ℕ → ℕ → ℕ → ℕ
ahead n k zero = k
ahead n k (suc d) = ahead n (next n k) d

pub ahead-lt : (n k d : ℕ) → k < n → ahead n k d < n
unfolding ahead
ahead-lt n k zero h = h
ahead-lt n k (suc d) h = ahead-lt n (next n k) d (omega arith)

next_lem : (n k : ℕ) → k < n → (k + 1 < n × (next n k ≡ k + 1)) ⊎ ((k + 1 ≡ n) × (next n k ≡ 0))
next_lem n k h = elim (dec_lt (k + 1) n) [
  | yes p ↦ inl (p, mod-eq_of_lt p)
  | no p ↦ inr (omega arith, let e : n ≡ k + 1 = omega arith in rw e (mod_self (k + 1)))
]

-- Fewer steps than blocks, once round at most.
pub ahead_lem :
    (n k d : ℕ)
    → k < n
    → d < n
    → ((k + d < n) × (ahead n k d ≡ k + d)) ⊎ ((n ≤ k + d) × (ahead n k d + n ≡ k + d))
unfolding ahead
ahead_lem n k zero h g = inl (omega arith, omega arith)
ahead_lem n k (suc d) h g =
    ground (arith, next_lem n k h, ahead_lem n (next n k) d (omega arith) (omega arith))

pub ahead-ne : (n k d : ℕ) → k < n → suc d < n → ahead n k (suc d) ≢ k
ahead-ne n k d h g = ground (arith, ahead_lem n k (suc d) h g)

pub ahead_snoc : (n k d : ℕ) → ahead n k (suc d) ≡ next n (ahead n k d)
unfolding ahead
ahead_snoc n k zero = refl
ahead_snoc n k (suc d) = ahead_snoc n (next n k) d

-- Moving on by one element is moving on by one block.
pub next-offset : (e n k : ℕ) → 0 < e → k < n → (e * k + e) % (e * n) ≡ e * next n k
next-offset e n k pe h = elim (next_lem n k h) [
  | inl p ↦ rw p.1 (rw (mod-eq_of_lt {n = e * k + e} {m = e * n} (below p.0)) (omega arith))
  | inr p ↦ rw p.1 (rw (all p.0) (mod_self (e * n) ∙ omega arith))
]
  where
    below : k + 1 < n → e * k + e < e * n
    below q = omega (arith, ap (λ (t : ℕ). e * t) (rest q))
      where
        rest : k + 1 < n → n ≡ k + 2 + (n - (k + 2))
        rest r = omega arith

    all : k + 1 ≡ n → e * k + e ≡ e * n
    all q = omega (arith, ap (λ (t : ℕ). e * t) q)

-- The bytes of different blocks do not meet.
pub block_disjoint : (e j k : ℕ) → j ≢ k → (e * j + e ≤ e * k) ⊎ (e * k + e ≤ e * j)
block_disjoint e j k h = elim (dec_lt j k) [ yes p ↦ inl (grind arith) | no p ↦ inr (grind arith) ]

-- Two blocks have one offset only if they are one block.
pub offset-injective : (e j k : ℕ) → 0 < e → e * j ≡ e * k → j ≡ k
offset-injective e j k pe h = elim (ℕ_discrete j k) [
  | yes p ↦ p
  | no p ↦ elim (block_disjoint e j k p) [
    | inl q ↦ absurd (omega arith)
    | inr q ↦ absurd (omega arith)
  ]
]

-- A full turn comes back.
pub ahead_round : (n k d : ℕ) → k < n → suc d ≡ n → ahead n k (suc d) ≡ k
ahead_round n k d h e =
    rw (ahead_snoc n k d)
      (ground (arith, ahead_lem n k d h (omega arith), next_lem n (ahead n k d) (ahead-lt n k d h)))
