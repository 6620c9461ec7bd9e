-- ===== src/Force/Codes.antt =====
-- The enumerations of VirtualForce_linux/force_interface.h for the numbers in the regions, each with
-- the values of its enumerators. A name behind the last enumerator, as `CMD_SERVO_MAX`, is a bound and
-- no enumerator. The states of the force core are in Pc.States.
pub mod Told
use virtual_force.Prelude.{ℕ}

-- `FORCE_WORK_MODE_e`
pub data ForceWorkModeE : Type 0 where
  no_mode impedance_mode admittance_mode : ForceWorkModeE

unfoldable pub force_work_mode : ForceWorkModeE → ℕ
force_work_mode no_mode = 0
force_work_mode impedance_mode = 1
force_work_mode admittance_mode = 2

-- `FORCE_WORK_SUB_MODE_e`
pub data ForceWorkSubModeE : Type 0 where
  no_sub_mode teach learn : ForceWorkSubModeE

unfoldable pub force_work_sub_mode : ForceWorkSubModeE → ℕ
force_work_sub_mode no_sub_mode = 0
force_work_sub_mode teach = 1
force_work_sub_mode learn = 2

-- `SERVO_CMD_e`
pub data ServoCmdE : Type 0 where
  cmd_working cmd_idle cmd_set_fault cmd_reset_fault cmd_switch_mode cmd_dignose_config
        cmd_get_state cmd_set_para cmd_set_ins :
      ServoCmdE
  cmd_get_res cmd_shake_req cmd_shake_bind cmd_heart_inc cmd_virtual_force : ServoCmdE

unfoldable pub servo_cmd : ServoCmdE → ℕ
servo_cmd cmd_working = 0x01
servo_cmd cmd_idle = 0x02
servo_cmd cmd_set_fault = 0x03
servo_cmd cmd_reset_fault = 0x04
servo_cmd cmd_switch_mode = 0x05
servo_cmd cmd_dignose_config = 0x06
servo_cmd cmd_get_state = 0x07
servo_cmd cmd_set_para = 0x0a
servo_cmd cmd_set_ins = 0x0b
servo_cmd cmd_get_res = 0x0c
servo_cmd cmd_shake_req = 0x0d
servo_cmd cmd_shake_bind = 0x0e
servo_cmd cmd_heart_inc = 0x0f
servo_cmd cmd_virtual_force = 0x10

-- `SERVO_CMD_RES_e`
pub data ServoCmdResE : Type 0 where
  res_info res_get_state res_get_res res_diagnose_file : ServoCmdResE

unfoldable pub servo_cmd_res : ServoCmdResE → ℕ
servo_cmd_res res_info = 0xa0
servo_cmd_res res_get_state = 0xa1
servo_cmd_res res_get_res = 0xa2
servo_cmd_res res_diagnose_file = 0xa3

-- `FORCE_MODULE_e`
pub data ForceModuleE : Type 0 where
  no_module param_moudle adnittance_moudle impedance_moudle instruction_moudle : ForceModuleE
  kinematic_moudle kinematic_inv_moudle servo_comm_moudle diff_motion_moudle : ForceModuleE

unfoldable pub force_module : ForceModuleE → ℕ
force_module no_module = 0x00
force_module param_moudle = 0x01
force_module adnittance_moudle = 0x02
force_module impedance_moudle = 0x03
force_module instruction_moudle = 0x04
force_module kinematic_moudle = 0x05
force_module kinematic_inv_moudle = 0x06
force_module servo_comm_moudle = 0x07
force_module diff_motion_moudle = 0x08

-- `FORCE_ERR_CODE_e`
pub data ForceErrCodeE : Type 0 where
  heart_err cmd_err instruction_lose_err instruction_over_limit_err result_push_err : ForceErrCodeE
  dived_zero kinematic_calc_err diff_calc_err kinematic_inv_calc_err : ForceErrCodeE

unfoldable pub force_err_code : ForceErrCodeE → ℕ
force_err_code heart_err = 0x01
force_err_code cmd_err = 0x02
force_err_code instruction_lose_err = 0x03
force_err_code instruction_over_limit_err = 0x04
force_err_code result_push_err = 0x05
force_err_code dived_zero = 0x06
force_err_code kinematic_calc_err = 0x07
force_err_code diff_calc_err = 0x08
force_err_code kinematic_inv_calc_err = 0x09

-- `FORCE_DIGNOSE_VAR_e`
pub data ForceDignoseVarE : Type 0 where
  pos_poseular_given theta_back theta_back_to_pos_eular theta_back_to_pos_quant : ForceDignoseVarE
  out_pos_comp in_force_given_base in_force_back_tool in_force_back_base force_err_base :
      ForceDignoseVarE
  out_theta pid_err pid_out : ForceDignoseVarE

unfoldable pub force_dignose_var : ForceDignoseVarE → ℕ
force_dignose_var pos_poseular_given = 0
force_dignose_var theta_back = 1
force_dignose_var theta_back_to_pos_eular = 2
force_dignose_var theta_back_to_pos_quant = 3
force_dignose_var out_pos_comp = 4
force_dignose_var in_force_given_base = 5
force_dignose_var in_force_back_tool = 6
force_dignose_var in_force_back_base = 7
force_dignose_var force_err_base = 8
force_dignose_var out_theta = 9
force_dignose_var pid_err = 10
force_dignose_var pid_out = 11
