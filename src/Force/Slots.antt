-- ===== src/Force/Slots.antt =====
-- `Force_Virtual_Download` of VirtualForce_linux/force_interface.c, access by access, with the
-- force core at work in between; `Upload` has `Force_Monitor_Upload`, and `Commands`
-- `Servo_Force_Comm_Set_Cmd`, in the same way. The core is
-- a parameter: what it makes of a region, step by step. `Polite`, and `Patient` there, say what
-- the code relies on: the core leaves a region alone while the flag `valid` gives it to the other
-- side. The accesses are in the order of the code.
pub mod Whole
pub mod Upload
pub mod Told
pub mod Commands
use virtual_force.Prelude.{
  ℕ, zero, suc, ◌+◌, ◌≡◌, ◌≢◌, ◌⊎◌, Bool, Option, none, some, List, [], ◌∷◌, ltb, ◌==◌,
  if◌then◌else◌,
}
use virtual_force.Wire.{Axes, PcCommCmd, PcCommData}
use virtual_force.Force.Regions.{ForceMonitor, ForceVirtualCmd}
use virtual_force.Force.Exchange.{dead_beef}

-- the entry of an array of `MAX_DOFS`
unfoldable pub axis : Axes → ℕ → ℕ
axis a i =
    if i == 0
    then a.axis_0
    else if i == 1
    then a.axis_1
    else if i == 2
    then a.axis_2
    else if i == 3
    then a.axis_3
    else if i == 4
    then a.axis_4
    else a.axis_5

unfoldable pub set_axis : Axes → ℕ → ℕ → Axes
set_axis a j x = record {
  axis_0 = (if j == 0 then x else a.axis_0);
  axis_1 = (if j == 1 then x else a.axis_1);
  axis_2 = (if j == 2 then x else a.axis_2);
  axis_3 = (if j == 3 then x else a.axis_3);
  axis_4 = (if j == 4 then x else a.axis_4);
  axis_5 = (if j == 5 then x else a.axis_5);
}

-- Where `Force_Virtual_Download` is: outside; before its test of `valid`; or before the round `j` of
-- its loop, with 6 before the store to `valid`.
pub data Writer : Type 0 where
  outside : Writer
  testing : PcCommCmd → Writer
  storing : PcCommCmd → ℕ → Writer

-- `given` is the last command whose force was handed over.
pub record Slot : Type 0 where
  pub writer : Writer
  pub region : ForceVirtualCmd
  pub given : Option PcCommCmd

-- A move: the function is called, it makes its next access, or the force core makes a step.
pub data Move : Type 0 where
  called : PcCommCmd → Move
  accesses : Move
  core : (ForceVirtualCmd → ForceVirtualCmd) → Move

-- the next access of `Force_Virtual_Download`
unfoldable pub access : Writer → Slot → Slot
access outside s = s
access (testing c) s =
    if s.region.valid == 0 then record s { writer = storing c 0 } else record s { writer = outside }
access (storing c j) s =
    if ltb j 6
    then record s {
      writer = storing c (j + 1);
      region = record (s.region) { force = set_axis s.region.force j (axis c.params j) };
    }
    else record {
      writer = outside;
      region = record (s.region) { valid = dead_beef };
      given = some c;
    }

unfoldable pub move : Move → Slot → Slot
move (called c) s = elim s.writer [
  | outside ↦ record s { writer = testing c }
  | testing _ ↦ s
  | storing _ _ ↦ s
]
move accesses s = access s.writer s
move (core g) s = record s { region = g s.region }

unfoldable pub moves : List Move → Slot → Slot
moves [] s = s
moves (m ∷ ms) s = moves ms (move m s)

-- The core leaves an empty region alone, and does nothing to a force but to take it.
abbrev pub Polite : List Move → Type 0
Polite [] = Unit {0}
Polite (core g ∷ ms) =
    ((r : ForceVirtualCmd) → (g r ≡ r) ⊎ ((r.valid ≢ 0) × (g r ≡ record r { valid = 0 })))
    × Polite ms
Polite (called c ∷ ms) = Polite ms
Polite (accesses ∷ ms) = Polite ms
