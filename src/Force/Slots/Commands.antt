-- ===== src/Force/Slots/Commands.antt =====
-- `Servo_Force_Comm_Set_Cmd` of VirtualForce_linux/force_interface.c, byte by byte, with the force core at
-- work in between. The region for commands has no flag: `memcpy` stores the bytes of a call in an order
-- of its own, and the core reads a byte when it comes to it.
pub mod Untorn
use virtual_force.Prelude.{
  ℕ, zero, suc, ◌/◌, ◌%◌, ◌<◌, ◌≡◌, refl, sym, arith, Option, none, some, List, [], ◌∷◌, ◌++◌, ◌⊎◌,
  inl, inr, ◌==◌, if◌then◌else◌,
}
use mathlib.Core.List.{append_assoc}
use virtual_force.Wire.{byte}
use virtual_force.Force.Params.{put}
use virtual_force.Force.Service.{no_call}
use virtual_force.Force.Regions.{ServoCoreProcessCall}

-- the word `k` of a call
unfoldable pub word : ServoCoreProcessCall → ℕ → ℕ
word c k =
    if k == 0
    then c.cmd
    else if k == 1
    then c.param1
    else if k == 2
    then c.param2
    else if k == 3
    then c.param3
    else if k == 4
    then c.param4
    else if k == 5
    then c.param5
    else if k == 6
    then c.param6
    else c.param7

-- the byte `k` of a call
unfoldable pub call_byte : ServoCoreProcessCall → ℕ → ℕ
call_byte c k = byte (word c (k / 4)) (k % 4)

-- The call that is being copied, the region, what the core has read of it, and the commands that were sent.
pub record CommandSlot : Type 0 where
  pub app : Option ServoCoreProcessCall
  pub region : ℕ → ℕ
  pub seen : ℕ → ℕ
  pub commands : List ℕ

-- A move: the function is called; `memcpy` stores a byte; the function returns; or the
-- core reads a byte.
pub data CommandMove : Type 0 where
  called : ServoCoreProcessCall → CommandMove
  stores : ℕ → CommandMove
  returns : CommandMove
  core_reads : ℕ → CommandMove

unfoldable pub command_move : CommandMove → CommandSlot → CommandSlot
command_move (called c) s = elim s.app [
  | none ↦ record s { app = some c; commands = s.commands ++ (c.cmd ∷ []) }
  | some _ ↦ s
]
command_move (stores k) s = elim s.app [
  | none ↦ s
  | some c ↦ record s { region = put s.region k (call_byte c k) }
]
command_move returns s = record s { app = none }
command_move (core_reads k) s = record s { seen = put s.seen k (s.region k) }

unfoldable pub command_moves : List CommandMove → CommandSlot → CommandSlot
command_moves [] s = s
command_moves (m ∷ ms) s = command_moves ms (command_move m s)

-- A call whose first byte is its command, and whose other bytes are 0.
pub record IsBare (c : ServoCoreProcessCall) : Type 0 where
  pub first : call_byte c 0 ≡ c.cmd
  pub others : (k : ℕ) → call_byte c (suc k) ≡ 0

abbrev pub AreBare : List CommandMove → Type 0
AreBare [] = Unit {0}
AreBare (called c ∷ ms) = IsBare c × AreBare ms
AreBare (stores k ∷ ms) = AreBare ms
AreBare (returns ∷ ms) = AreBare ms
AreBare (core_reads k ∷ ms) = AreBare ms
