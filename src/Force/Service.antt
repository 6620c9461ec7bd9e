-- ===== src/Force/Service.antt =====
-- The command region of VirtualForce_linux/force_interface.c: `Servo_Force_Comm_Set_Cmd` and the
-- calls that send a command through it.
pub mod Pack
pub mod Calls
use Prim.Native.Nat.{bit_or}
use virtual_force.Prelude.{ℕ, ◌*◌, ◌%◌, ◌^◌, Option, none, some}
use virtual_force.Force.Regions.{ServoCoreProcessCall, Interface}

-- `SERVO_CMD_e`
abbrev pub cmd_working : ℕ
cmd_working = 0x01

abbrev pub cmd_idle : ℕ
cmd_idle = 0x02

abbrev pub cmd_set_fault : ℕ
cmd_set_fault = 0x03

abbrev pub cmd_reset_fault : ℕ
cmd_reset_fault = 0x04

abbrev pub cmd_switch_mode : ℕ
cmd_switch_mode = 0x05

abbrev pub cmd_dignose_config : ℕ
cmd_dignose_config = 0x06

-- `ServoCoreProcessCall_t app={0}`
abbrev pub no_call : ServoCoreProcessCall
no_call = record {
  cmd = 0;
  param1 = 0;
  param2 = 0;
  param3 = 0;
  param4 = 0;
  param5 = 0;
  param6 = 0;
  param7 = 0;
}

unfoldable pub set_cmd : ServoCoreProcessCall → Interface → Option Interface
set_cmd app s = elim s.service_info [
  | none ↦ none
  | some _ ↦ some (record s { service_info = some app })
]

unfoldable pub cmd_working_call : Interface → Option Interface
unfolding set_cmd
cmd_working_call = set_cmd (record no_call { cmd = cmd_working })

unfoldable pub cmd_idle_call : Interface → Option Interface
unfolding set_cmd
cmd_idle_call = set_cmd (record no_call { cmd = cmd_idle })

unfoldable pub cmd_mode_call : ℕ → ℕ → Interface → Option Interface
unfolding set_cmd
cmd_mode_call mode submode =
    set_cmd (record no_call { cmd = cmd_switch_mode; param1 = mode; param2 = submode })

unfoldable pub cmd_set_fault_call : Interface → Option Interface
unfolding set_cmd
cmd_set_fault_call = set_cmd (record no_call { cmd = cmd_set_fault })

unfoldable pub cmd_reset_fault_call : Interface → Option Interface
unfolding set_cmd
cmd_reset_fault_call = set_cmd (record no_call { cmd = cmd_reset_fault })

-- `a | (b << 16)`, on `unsigned int`
unfoldable pub pack : ℕ → ℕ → ℕ
pack a b = bit_or a (b * 2 ^ 16 % 2 ^ 32)

-- The argument is the array of `FORCE_DIGNOSE_VAR_e` at the pointer. The code sends
-- `CMD_SWITCH_MODE`.
unfoldable pub cmd_dignose_cfg_call : (ℕ → ℕ) → Interface → Option Interface
unfolding set_cmd
cmd_dignose_cfg_call ptr = set_cmd (record no_call {
  cmd = cmd_switch_mode;
  param1 = pack (ptr 0) (ptr 1);
  param2 = pack (ptr 2) (ptr 3);
  param3 = pack (ptr 4) (ptr 5);
})
