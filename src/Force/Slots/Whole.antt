-- ===== src/Force/Slots/Whole.antt =====
-- The forces that `Force_Virtual_Download` of force_interface.c hands over, entry by entry.
use virtual_force.Prelude.{
  ℕ, ◌≤◌, ◌<◌, ◌≡◌, ◌≢◌, inl, inr, refl, arith, Bool-cases, Option, none, some, List, [], ◌∷◌, ltb,
  ◌==◌, if◌then◌else◌,
}
use virtual_force.Wire.{Axes, PcCommCmd}
use virtual_force.Force.Regions.{ForceVirtualCmd, Interface}
use virtual_force.Force.Exchange.{virtual_download}
use virtual_force.Force.Slots.{
  axis, set_axis, Writer, outside, testing, storing, Slot, Move, called, accesses, core, access,
  move, moves, Polite,
}

-- Outside, a force in the region is that of the last command; in the loop the region is empty, and
-- holds the first `j` entries.
Good : Writer → Slot → Type 0
Good (storing c j) s =
    (s.region.valid ≡ 0) × (j ≤ 6) × ((i : ℕ) → i < j → axis s.region.force i ≡ axis c.params i)
Good w s = s.region.valid ≢ 0 → (c : PcCommCmd) × (s.given ≡ some c) × (s.region.force ≡ c.params)

pub axes_ext : (a b : Axes) → ((i : ℕ) → i < 6 → axis a i ≡ axis b i) → a ≡ b
unfolding axis
axes_ext a b h = ground (
  arith,
  h 0 (omega arith),
  h 1 (omega arith),
  h 2 (omega arith),
  h 3 (omega arith),
  h 4 (omega arith),
  h 5 (omega arith),
)

pub axis-set_axis :
    (a : Axes) (i j : ℕ) (x : ℕ)
    → i < 6
    → j < 6
    → axis (set_axis a j x) i ≡ (if i == j then x else axis a i)
unfolding axis set_axis
axis-set_axis a i j x li lj = ground arith

access-Good :
    (w : Writer) (s : Slot) → s.writer ≡ w → Good w s → Good (access w s).writer (access w s)
unfolding Good access
access-Good outside s e h = rw e h
access-Good (testing c) s e h = elim (Bool-cases (s.region.valid == 0)) [
  | inl free ↦ rw free (ground arith, omega arith, λ i lt. absurd (omega arith))
  | inr busy ↦ rw busy h
]
access-Good (storing c j) s e (free, small, same) = elim (Bool-cases (ltb j 6)) [
  | inl less ↦ rw less (
    free,
    ground arith,
    λ i lt. ground (arith, axis-set_axis s.region.force i j (axis c.params j), same i),
  )
  | inr last ↦
      rw last (λ ne. (c, refl, axes_ext s.region.force c.params (λ i lt. same i (ground arith))))
]

move-Good :
    (m : Move) (ms : List Move) (s : Slot)
    → Polite (m ∷ ms)
    → Good s.writer s
    → Good (move m s).writer (move m s)
unfolding Good move
move-Good (called c) ms s po h = go s.writer refl h
  where
    go :
        (w : Writer) → s.writer ≡ w → Good w s → Good (move (called c) s).writer (move (called c) s)
    go outside e h = rw (e, move) h
    go (testing d) e h = rw (e, move, e) h
    go (storing d j) e h = rw (e, move, e) h
move-Good accesses ms s po h = access-Good s.writer s refl h
move-Good (core g) ms s po h = elim (po.0 s.region) [
  | inl same ↦ rw (same, move) h
  | inr (busy, took) ↦ rw (took, move) (taken s.writer busy h)
]
  where
    taken :
        (w : Writer)
        → s.region.valid ≢ 0
        → Good w s
        → Good w (record s { region = record (s.region) { valid = 0 } })
    taken outside busy h = λ ne. absurd (ne refl)
    taken (testing c) busy h = λ ne. absurd (ne refl)
    taken (storing c j) busy h = absurd (busy h.0)

moves-Good :
    (ms : List Move) (s : Slot)
    → Polite ms
    → Good s.writer s
    → Good (moves ms s).writer (moves ms s)
unfolding moves
moves-Good [] s po h = h
moves-Good (called c ∷ ms) s po h =
    moves-Good ms (move (called c) s) po (move-Good (called c) ms s po h)
moves-Good (accesses ∷ ms) s po h =
    moves-Good ms (move accesses s) po (move-Good accesses ms s po h)
moves-Good (core g ∷ ms) s po h =
    moves-Good ms (move (core g) s) po.1 (move-Good (core g) ms s po h)

whole :
    (w : Writer) (s : Slot)
    → Good w s
    → s.region.valid ≢ 0
    → (c : PcCommCmd) × (s.given ≡ some c) × (s.region.force ≡ c.params)
unfolding Good
whole outside s h = h
whole (testing c) s h = h
whole (storing c j) s h = λ ne. absurd (ne h.0)

-- No force is torn: from an empty region on, however the accesses of `Force_Virtual_Download` and the
-- steps of a polite force core come in turn, whenever the flag gives the region to the core, the
-- force in it is, in all six entries, that of the last command that was handed over.
pub no_force_torn :
    (ms : List Move) (r : ForceVirtualCmd)
    → Polite ms
    → r.valid ≡ 0
    → let s = moves ms (record { writer = outside; region = r; given = none }) in
      s.region.valid ≢ 0 → (c : PcCommCmd) × (s.given ≡ some c) × (s.region.force ≡ c.params)
unfolding Good
no_force_torn ms r po free =
    let s = moves ms (record { writer = outside; region = r; given = none }) in
    whole s.writer s (
      moves-Good ms (record { writer = outside; region = r; given = none }) po
        (λ ne. absurd (ne free)))

-- one call without interruption
abbrev pub alone : PcCommCmd → List Move
alone c =
    called c
    ∷ accesses
    ∷ accesses
    ∷ accesses
    ∷ accesses
    ∷ accesses
    ∷ accesses
    ∷ accesses
    ∷ accesses
    ∷ []

-- Without the core in between, the accesses of one call come to what the call does in one piece.
pub download_alone :
    (c : PcCommCmd) (s s' : Interface) (r : ForceVirtualCmd) (given : Option PcCommCmd)
    → s.virtual_info ≡ some r
    → virtual_download c s ≡ some s'
    → let t = moves (alone c) (record { writer = outside; region = r; given = given }) in
      (s'.virtual_info ≡ some t.region) × (t.writer ≡ outside)
unfolding moves move access set_axis axis virtual_download
download_alone c s s' r given e h = ground arith
