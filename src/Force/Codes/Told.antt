-- ===== src/Force/Codes/Told.antt =====
-- The enumerators of Force.Codes told from their numbers.
use virtual_force.Prelude.{
  ℕ, ◌<◌, ◌≡◌, arith, ◌==◌, if◌then◌else◌, Option, none, some, List, [], ◌∷◌,
}
use virtual_force.Force.Service.Pack.{fvar_max}
use virtual_force.Force.Codes.{
  ForceWorkModeE, no_mode, impedance_mode, admittance_mode, ForceWorkSubModeE, no_sub_mode, teach,
  learn, ServoCmdE, servo_cmd, cmd_working, cmd_idle, cmd_set_fault, cmd_reset_fault,
  cmd_switch_mode, cmd_dignose_config, cmd_get_state, cmd_set_para, cmd_set_ins, cmd_get_res,
  cmd_shake_req, cmd_shake_bind, cmd_heart_inc, cmd_virtual_force, ServoCmdResE, res_info,
  res_get_state, res_get_res, res_diagnose_file, ForceModuleE, no_module, param_moudle,
  adnittance_moudle, impedance_moudle, instruction_moudle, kinematic_moudle, kinematic_inv_moudle,
  servo_comm_moudle, diff_motion_moudle, ForceErrCodeE, heart_err, cmd_err, instruction_lose_err,
  instruction_over_limit_err, result_push_err, dived_zero, kinematic_calc_err, diff_calc_err,
  kinematic_inv_calc_err, ForceDignoseVarE, force_dignose_var, pos_poseular_given, theta_back,
  theta_back_to_pos_eular, theta_back_to_pos_quant, out_pos_comp, in_force_given_base,
  in_force_back_tool, in_force_back_base, force_err_base, out_theta, pid_err, pid_out,
}

-- the first of some enumerators that has the number
pub told {ℓ} : {E : Type ℓ} → (E → ℕ) → List E → ℕ → Option E
told number [] n = none
told number (e ∷ es) n = if number e == n then some e else told number es n

abbrev pub force_work_modes : List ForceWorkModeE
force_work_modes = no_mode ∷ impedance_mode ∷ admittance_mode ∷ []

abbrev pub force_work_sub_modes : List ForceWorkSubModeE
force_work_sub_modes = no_sub_mode ∷ teach ∷ learn ∷ []

abbrev pub servo_cmds : List ServoCmdE
servo_cmds =
    cmd_working ∷ cmd_idle ∷ cmd_set_fault ∷ cmd_reset_fault ∷ cmd_switch_mode ∷ cmd_dignose_config
    ∷ cmd_get_state ∷ cmd_set_para ∷ cmd_set_ins ∷ cmd_get_res ∷ cmd_shake_req ∷ cmd_shake_bind
    ∷ cmd_heart_inc ∷ cmd_virtual_force ∷ []

abbrev pub servo_cmd_ress : List ServoCmdResE
servo_cmd_ress = res_info ∷ res_get_state ∷ res_get_res ∷ res_diagnose_file ∷ []

abbrev pub force_modules : List ForceModuleE
force_modules =
    no_module ∷ param_moudle ∷ adnittance_moudle ∷ impedance_moudle ∷ instruction_moudle
    ∷ kinematic_moudle ∷ kinematic_inv_moudle ∷ servo_comm_moudle ∷ diff_motion_moudle ∷ []

abbrev pub force_err_codes : List ForceErrCodeE
force_err_codes =
    heart_err ∷ cmd_err ∷ instruction_lose_err ∷ instruction_over_limit_err ∷ result_push_err
    ∷ dived_zero ∷ kinematic_calc_err ∷ diff_calc_err ∷ kinematic_inv_calc_err ∷ []

abbrev pub force_dignose_vars : List ForceDignoseVarE
force_dignose_vars =
    pos_poseular_given ∷ theta_back ∷ theta_back_to_pos_eular ∷ theta_back_to_pos_quant
    ∷ out_pos_comp ∷ in_force_given_base ∷ in_force_back_tool ∷ in_force_back_base ∷ force_err_base
    ∷ out_theta ∷ pid_err ∷ pid_out ∷ []

-- a code and its numbers: each enumerator is told from its number
abbrev IsTold : (E : Type 0) → (E → ℕ) → List E → Type 0
IsTold E number es = (e : E) → told number es (number e) ≡ some e

pub servo_cmd-IsTold : IsTold ServoCmdE servo_cmd servo_cmds
unfolding told servo_cmd
servo_cmd-IsTold c = ground arith

force_dignose_var-IsTold : IsTold ForceDignoseVarE force_dignose_var force_dignose_vars
unfolding told force_dignose_var
force_dignose_var-IsTold v = ground arith

-- A bound is above all of its enumerators.
pub force_dignose_var-lt : (v : ForceDignoseVarE) → force_dignose_var v < fvar_max
unfolding force_dignose_var
force_dignose_var-lt v = ground arith
