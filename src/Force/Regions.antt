-- ===== src/Force/Regions.antt =====
-- The regions of VirtualForce_linux/force_interface.h that the controller and the force core share,
-- and the pointers of force_interface.c to them. An `int32_t` is its bit pattern; a `double` is a
-- bit pattern that is moved, or made by a conversion that is a parameter.
use virtual_force.Prelude.{ℕ, Option}
use virtual_force.Wire.{Axes}

-- `ServoCoreProcessCall_t`
pub record ServoCoreProcessCall : Type 0 where
  pub cmd : ℕ
  pub param1 : ℕ
  pub param2 : ℕ
  pub param3 : ℕ
  pub param4 : ℕ
  pub param5 : ℕ
  pub param6 : ℕ
  pub param7 : ℕ

-- `ForceCoreProcessBack_t`
pub record ForceCoreProcessBack : Type 0 where
  pub param1 : ℕ
  pub param2 : ℕ
  pub param3 : ℕ
  pub param4 : ℕ
  pub param5 : ℕ
  pub param6 : ℕ
  pub param7 : ℕ
  pub param8 : ℕ

-- `PARA_FORCE_INFO_t`; an array is a function of its index
pub record ParaForceInfo : Type 0 where
  pub update_flag : ℕ
  pub rsv_data : ℕ
  pub posture : ℕ → ℕ
  pub para_data : ℕ → ℕ
  pub para_rsv : ℕ → ℕ

-- `PARA_FORCE_STD_INFO_t`: the posture, the Denavit-Hartenberg table, the base, and the numbers of the
-- controllers.
pub record ParaForceStdInfo : Type 0 where
  pub arm : ℕ
  pub elbow : ℕ
  pub wrist : ℕ
  pub flip : ℕ
  pub dh_d1 : ℕ
  pub dh_a1 : ℕ
  pub dh_alpha1 : ℕ
  pub dh_offset1 : ℕ
  pub dh_d2 : ℕ
  pub dh_a2 : ℕ
  pub dh_alpha2 : ℕ
  pub dh_offset2 : ℕ
  pub dh_d3 : ℕ
  pub dh_a4 : ℕ
  pub dh_alpha4 : ℕ
  pub dh_offset4 : ℕ
  pub dh_d4 : ℕ
  pub dh_a5 : ℕ
  pub dh_alpha5 : ℕ
  pub dh_offset5 : ℕ
  pub dh_d6 : ℕ
  pub dh_a6 : ℕ
  pub dh_alpha6 : ℕ
  pub dh_offset6 : ℕ
  pub base_rmtx_0_0 : ℕ
  pub base_rmtx_0_1 : ℕ
  pub base_rmtx_0_2 : ℕ
  pub base_rmtx_1_0 : ℕ
  pub base_rmtx_1_1 : ℕ
  pub base_rmtx_1_2 : ℕ
  pub base_rmtx_2_0 : ℕ
  pub base_rmtx_2_1 : ℕ
  pub base_rmtx_2_2 : ℕ
  pub base_p_x : ℕ
  pub base_p_y : ℕ
  pub base_p_z : ℕ
  pub bd_v1 : ℕ
  pub bd_v2 : ℕ
  pub bd_v3 : ℕ
  pub bd_v4 : ℕ
  pub bd_v5 : ℕ
  pub bd_v6 : ℕ
  pub kd_v1 : ℕ
  pub kd_v2 : ℕ
  pub kd_v3 : ℕ
  pub kd_v4 : ℕ
  pub kd_v5 : ℕ
  pub kd_v6 : ℕ
  pub md_v1 : ℕ
  pub md_v2 : ℕ
  pub md_v3 : ℕ
  pub md_v4 : ℕ
  pub md_v5 : ℕ
  pub md_v6 : ℕ
  pub imped_kp_1 : ℕ
  pub imped_ki_1 : ℕ
  pub imped_kd_1 : ℕ
  pub imped_kp_2 : ℕ
  pub imped_ki_2 : ℕ
  pub imped_kd_2 : ℕ
  pub imped_kp_3 : ℕ
  pub imped_ki_3 : ℕ
  pub imped_kd_3 : ℕ
  pub imped_kp_4 : ℕ
  pub imped_ki_4 : ℕ
  pub imped_kd_4 : ℕ
  pub imped_kp_5 : ℕ
  pub imped_ki_5 : ℕ
  pub imped_kd_5 : ℕ
  pub imped_kp_6 : ℕ
  pub imped_ki_6 : ℕ
  pub imped_kd_6 : ℕ
  pub adnit_kp_1 : ℕ
  pub adnit_ki_1 : ℕ
  pub adnit_kd_1 : ℕ
  pub adnit_kp_2 : ℕ
  pub adnit_ki_2 : ℕ
  pub adnit_kd_2 : ℕ
  pub adnit_kp_3 : ℕ
  pub adnit_ki_3 : ℕ
  pub adnit_kd_3 : ℕ
  pub adnit_kp_4 : ℕ
  pub adnit_ki_4 : ℕ
  pub adnit_kd_4 : ℕ
  pub adnit_kp_5 : ℕ
  pub adnit_ki_5 : ℕ
  pub adnit_kd_5 : ℕ
  pub adnit_kp_6 : ℕ
  pub adnit_ki_6 : ℕ
  pub adnit_kd_6 : ℕ

-- `FORCE_INSTRUCTION_INFO_t`
pub record ForceInstructionInfo : Type 0 where
  pub valid : ℕ
  pub not_used : ℕ
  pub in_pos_given : Axes
  pub in_vel_given : Axes
  pub in_acc_given : Axes
  pub in_force_given : Axes
  pub in_pos_back : Axes
  pub in_vel_back : Axes
  pub in_acc_back : Axes
  pub in_force_back : Axes

-- `FORCE_CORE_STATE_t`
pub record ForceCoreState : Type 0 where
  pub valid : ℕ
  pub err_code : ℕ
  pub err_history : ℕ → ℕ
  pub state : ℕ
  pub mode : ℕ
  pub sub_mode : ℕ
  pub rsv_data : ℕ

-- `FORCE_BACK_INFO_t`
pub record ForceBackInfo : Type 0 where
  pub valid : ℕ
  pub theta : Axes
  pub force : Axes
  pub dignose_var : ℕ → ℕ → ℕ
  pub rsv_data : ℕ

-- `Force_Monitor_t`
pub record ForceMonitor : Type 0 where
  pub valid : ℕ
  pub force_state : ℕ
  pub force_theta : Axes

-- `Force_Virtual_Cmd_t`
pub record ForceVirtualCmd : Type 0 where
  pub valid : ℕ
  pub force : Axes

-- The static variables of force_interface.c. `comm_info` points to words; `downloads` is the static
-- `i` of `Force_Virtual_Download`.
pub record Interface : Type 0 where
  pub comm_info : Option (ℕ → ℕ)
  pub service_info : Option ServoCoreProcessCall
  pub para_info : Option ParaForceInfo
  pub instruct_info : Option ForceInstructionInfo
  pub state_info : Option ForceCoreState
  pub back_info : Option ForceBackInfo
  pub monitor_info : Option ForceMonitor
  pub virtual_info : Option ForceVirtualCmd
  pub downloads : ℕ

-- An access through a pointer to a region: `none` is a fault.
abbrev pub Access : Type 0 → Type 0
Access A = Option (A × Interface)
