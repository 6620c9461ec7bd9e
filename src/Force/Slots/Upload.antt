-- ===== src/Force/Slots/Upload.antt =====
-- `Force_Monitor_Upload` of VirtualForce_linux/force_interface.c, access by access. Its `memcpy` of
-- the six doubles is taken as six accesses.
use virtual_force.Prelude.{ℕ, ◌+◌, ◌≡◌, List, [], ◌∷◌, ltb, ◌==◌, if◌then◌else◌}
use virtual_force.Wire.{PcCommData}
use virtual_force.Force.Regions.{ForceMonitor}
use virtual_force.Force.Slots.{axis, set_axis}

-- Where the function is: outside; before its test of `valid`; before it reads the state; or before
-- it copies the double `j`, with 6 before the store to `valid`.
pub data Reader : Type 0 where
  outside testing reading_state : Reader
  copying : ℕ → Reader

-- `monitor` is the report that is being filled in. `told` are the reports that were finished, each
-- with the region as it was then, the last one first.
pub record Upload : Type 0 where
  pub reader : Reader
  pub region : ForceMonitor
  pub monitor : PcCommData
  pub told : List (ForceMonitor × PcCommData)

-- A move: the function is called with a report, it makes its next access, or the force core makes a
-- step.
pub data Move : Type 0 where
  called : PcCommData → Move
  accesses : Move
  core : (ForceMonitor → ForceMonitor) → Move

unfoldable pub access : Reader → Upload → Upload
access outside s = s
access testing s =
    if s.region.valid == 1
    then record s { reader = reading_state }
    else record s { reader = outside }
access reading_state s = record s {
  reader = copying 0;
  monitor = record (s.monitor) { force_state = s.region.force_state };
}
access (copying j) s =
    if ltb j 6
    then record s {
      reader = copying (j + 1);
      monitor = record (s.monitor) {
        force_theta = set_axis s.monitor.force_theta j (axis s.region.force_theta j);
      };
    }
    else record s {
      reader = outside;
      region = record (s.region) { valid = 0 };
      told = (s.region, s.monitor) ∷ s.told;
    }

unfoldable pub move : Move → Upload → Upload
move (called m) s = elim s.reader [
  | outside ↦ record s { reader = testing; monitor = m }
  | testing ↦ s
  | reading_state ↦ s
  | copying _ ↦ s
]
move accesses s = access s.reader s
move (core g) s = record s { region = g s.region }

unfoldable pub moves : List Move → Upload → Upload
moves [] s = s
moves (m ∷ ms) s = moves ms (move m s)

-- The core leaves news alone until it is taken.
abbrev pub Patient : List Move → Type 0
Patient [] = Unit {0}
Patient (core g ∷ ms) = ((r : ForceMonitor) → r.valid ≡ 1 → g r ≡ r) × Patient ms
Patient (called m ∷ ms) = Patient ms
Patient (accesses ∷ ms) = Patient ms
