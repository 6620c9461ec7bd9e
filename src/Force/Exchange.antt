-- ===== src/Force/Exchange.antt =====
-- The regions of VirtualForce_linux/force_interface.c with a `valid` flag: whoever finds it set
-- takes the rest and clears it, whoever finds it clear fills the rest and sets it.
pub mod Once
pub mod Mailbox
use virtual_force.Prelude.{
  ℕ, ◌+◌, ◌%◌, ◌^◌, ◌==◌, if◌then◌else◌, Bool, true, false, Option, none, some,
}
use virtual_force.Wire.{Axes, PcCommCmd, PcCommData}
use virtual_force.Force.Regions.{
  ForceInstructionInfo, ForceBackInfo, ForceMonitor, ForceVirtualCmd, Interface, Access,
}

-- `Servo_Force_Comm_Set_Instruct`: `true` for 0, `false` for -1
unfoldable pub set_instruct : ForceInstructionInfo → Interface → Access Bool
set_instruct push_ptr s = elim s.instruct_info [
  | none ↦ none
  | some r ↦ some (
      if r.valid == 0
      then (true, record s { instruct_info = some (record push_ptr { valid = 1 }) })
      else (false, s))
]

-- `Servo_Force_Comm_Get_Result`: the result is what `pull_ptr` is left with, and whether 0 is
-- returned.
unfoldable pub get_result : ForceBackInfo → Interface → Access (Bool × ForceBackInfo)
get_result pull_ptr s = elim s.back_info [
  | none ↦ none
  | some r ↦ some (
      if r.valid == 0
      then ((false, pull_ptr), s)
      else ((true, r), record s { back_info = some (record r { valid = 0 }) }))
]

-- `Force_Monitor_Upload`: the report at `monitor`, filled in if there is news.
unfoldable pub monitor_upload : PcCommData → Interface → Access PcCommData
monitor_upload monitor s = elim s.monitor_info [
  | none ↦ none
  | some r ↦ some (
      if r.valid == 1
      then (
        record monitor { force_state = r.force_state; force_theta = r.force_theta },
        record s { monitor_info = some (record r { valid = 0 }) },
      )
      else (monitor, s))
]

-- `virtual_info->valid = 0xdeadbeef`
abbrev pub dead_beef : ℕ
dead_beef = 0xdeadbeef

-- `Force_Virtual_Download`
unfoldable pub virtual_download : PcCommCmd → Interface → Option Interface
virtual_download vcmd s = elim s.virtual_info [
  | none ↦ none
  | some r ↦ some (
      if r.valid == 0
      then record s {
        virtual_info = some (record { valid = dead_beef; force = vcmd.params });
        downloads = (s.downloads + 1) % 2 ^ 32;
      }
      else s)
]

abbrev pub no_force : Axes
no_force = record { axis_0 = 0; axis_1 = 0; axis_2 = 0; axis_3 = 0; axis_4 = 0; axis_5 = 0 }

-- `Force_Virtual_Reset`
unfoldable pub virtual_reset : Interface → Option Interface
virtual_reset s = elim s.virtual_info [
  | none ↦ none
  | some r ↦ some (record s { virtual_info = some (record r { force = no_force }) })
]

-- `Servo_Force_Comm_Discard_Result` does nothing.
unfoldable pub discard_result : Interface → Interface
discard_result s = s
