-- ===== src/Force/Slots/Told.antt =====
-- The reports that `Force_Monitor_Upload` of force_interface.c finishes, and what the region held.
use virtual_force.Prelude.{
  ℕ, ◌≤◌, ◌<◌, ◌≡◌, refl, inl, inr, arith, Bool-cases, some, List, [], ◌∷◌, ltb, ◌==◌,
}
use virtual_force.Wire.{PcCommData}
use virtual_force.Force.Regions.{ForceMonitor, Interface}
use virtual_force.Force.Exchange.{monitor_upload}
use virtual_force.Force.Slots.{axis, set_axis}
use virtual_force.Force.Slots.Whole.{axes_ext, axis-set_axis}
use virtual_force.Force.Slots.Upload.{
  Reader, outside, testing, reading_state, copying, Upload, Move, called, accesses, core, access,
  move, moves, Patient,
}

-- The report is what the region held as news.
abbrev pub Tells : ForceMonitor × PcCommData → Type 0
Tells (r, d) = (r.valid ≡ 1) × (d.force_state ≡ r.force_state) × (d.force_theta ≡ r.force_theta)

abbrev pub AllTell : List (ForceMonitor × PcCommData) → Type 0
AllTell [] = Unit {0}
AllTell (x ∷ xs) = Tells x × AllTell xs

-- Past the test the region holds news, and the report what was copied so far.
Good : Reader → ForceMonitor → PcCommData → Type 0
Good outside r d = Unit {0}
Good testing r d = Unit {0}
Good reading_state r d = r.valid ≡ 1
Good (copying j) r d =
    (r.valid ≡ 1)
    × (j ≤ 6)
    × (d.force_state ≡ r.force_state)
    × ((i : ℕ) → i < j → axis d.force_theta i ≡ axis r.force_theta i)

IsGood : Upload → Type 0
IsGood s = Good s.reader s.region s.monitor × AllTell s.told

access-IsGood :
    (w : Reader) (s : Upload)
    → s.reader ≡ w
    → Good w s.region s.monitor
    → AllTell s.told
    → IsGood (access w s)
unfolding Good IsGood access
access-IsGood outside s e h a = (rw e tt, a)
access-IsGood testing s e h a = elim (Bool-cases (s.region.valid == 1)) [
  | inl news ↦ rw news (ground arith, a)
  | inr none_new ↦ rw none_new (tt, a)
]
access-IsGood reading_state s e h a = ((h, omega arith, refl, λ i lt. absurd (omega arith)), a)
access-IsGood (copying j) s e (news, small, state, same) a = elim (Bool-cases (ltb j 6)) [
  | inl less ↦ rw less (
    (
      news,
      ground arith,
      state,
      λ i lt.
          ground
            (arith, axis-set_axis s.monitor.force_theta i j (axis s.region.force_theta j), same i),
    ),
    a,
  )
  | inr last ↦ rw last (
    tt,
    (
      (
        news,
        state,
        axes_ext s.monitor.force_theta s.region.force_theta (λ i lt. same i (ground arith)),
      ),
      a,
    ),
  )
]

accesses-IsGood : (s : Upload) → IsGood s → IsGood (move accesses s)
unfolding IsGood move
accesses-IsGood s h = access-IsGood s.reader s refl h.0 h.1

called-IsGood : (m : PcCommData) (s : Upload) → IsGood s → IsGood (move (called m) s)
unfolding Good IsGood move
called-IsGood m s h = go s.reader refl h
  where
    go :
        (w : Reader)
        → s.reader ≡ w
        → Good w s.region s.monitor × AllTell s.told
        → IsGood (move (called m) s)
    go outside e h = rw (e, move) (tt, h.1)
    go testing e h = rw (e, move, e) h
    go reading_state e h = rw (e, move, e) h
    go (copying j) e h = rw (e, move, e) h

-- The core does not change news, and what the function knows is about news.
core-IsGood :
    (g : ForceMonitor → ForceMonitor) (s : Upload)
    → ((r : ForceMonitor) → r.valid ≡ 1 → g r ≡ r)
    → IsGood s
    → IsGood (move (core g) s)
unfolding Good IsGood move
core-IsGood g s patient h = (go s.reader h.0, h.1)
  where
    go : (w : Reader) → Good w s.region s.monitor → Good w (g s.region) s.monitor
    go outside k = tt
    go testing k = tt
    go reading_state k = rw (patient s.region k) k
    go (copying j) k = rw (patient s.region k.0) k

moves-IsGood : (ms : List Move) (s : Upload) → Patient ms → IsGood s → IsGood (moves ms s)
unfolding moves
moves-IsGood [] s po h = h
moves-IsGood (called m ∷ ms) s po h = moves-IsGood ms (move (called m) s) po (called-IsGood m s h)
moves-IsGood (accesses ∷ ms) s po h = moves-IsGood ms (move accesses s) po (accesses-IsGood s h)
moves-IsGood (core g ∷ ms) s po h = moves-IsGood ms (move (core g) s) po.1 (core-IsGood g s po.0 h)

-- No report is torn: however the accesses of `Force_Monitor_Upload` and the steps of a force core
-- that leaves news alone come in turn, every report that was finished has the state and the six
-- doubles that the region held as news when it was marked as taken.
pub no_report_torn :
    (ms : List Move) (r : ForceMonitor) (m : PcCommData)
    → Patient ms
    → AllTell (moves ms (record { reader = outside; region = r; monitor = m; told = [] })).told
unfolding IsGood Good
no_report_torn ms r m po =
    (moves-IsGood ms (record { reader = outside; region = r; monitor = m; told = [] }) po
      (tt, tt)).1

-- one call without interruption
abbrev pub alone : PcCommData → List Move
alone m =
    called m
    ∷ accesses
    ∷ accesses
    ∷ accesses
    ∷ accesses
    ∷ accesses
    ∷ accesses
    ∷ accesses
    ∷ accesses
    ∷ accesses
    ∷ []

-- Without the core in between, the accesses of one call come to what the call does in one piece.
pub upload_alone :
    (m m' : PcCommData) (s s' : Interface) (r : ForceMonitor)
    → s.monitor_info ≡ some r
    → monitor_upload m s ≡ some (m', s')
    → let t = moves (alone m) (record { reader = outside; region = r; monitor = m; told = [] }) in
      (m' ≡ t.monitor) × (s'.monitor_info ≡ some t.region) × (t.reader ≡ outside)
unfolding moves move access set_axis axis monitor_upload
upload_alone m m' s s' r e h = ground arith
