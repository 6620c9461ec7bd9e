-- ===== src/Force/Params.antt =====
-- The parameter region of VirtualForce_linux/force_interface.c: `Servo_Force_Comm_Set_Para` and the
-- update flag.
pub mod Loop
use virtual_force.Prelude.{
  ℕ, zero, suc, ◌+◌, ◌-◌, ◌*◌, ◌/◌, ◌%◌, ◌^◌, Option, none, some, ltb, ◌==◌, if◌then◌else◌,
}
use virtual_force.Force.Regions.{ParaForceInfo, ParaForceStdInfo, Interface, Access}

-- `Servo_Force_Comm_Get_Para_UpdateFlag`
unfoldable pub get_para_update_flag : Interface → Access ℕ
get_para_update_flag s = elim s.para_info [ none ↦ none | some p ↦ some (p.update_flag, s) ]

-- `Servo_Force_Comm_Set_Para_UpdateFlag`
unfoldable pub set_para_update_flag : ℕ → Interface → Option Interface
set_para_update_flag val s = elim s.para_info [
  | none ↦ none
  | some p ↦ some (record s { para_info = some (record p { update_flag = val }) })
]

-- `a[i] = v`
abbrev pub put : (ℕ → ℕ) → ℕ → ℕ → ℕ → ℕ
put a i v j = if i == j then v else a j

-- The 64-bit address that the `int32_t` with bit pattern `w` is converted to: its sign is extended.
abbrev pub as_pointer : ℕ → ℕ
as_pointer w = if ltb w (2 ^ 31) then w else w + 2 ^ 64 - 2 ^ 32

-- `(sizeof(PARA_FORCE_STD_INFO_t)-32)/sizeof(int32_t)`, for a struct of 90 numbers
abbrev pub para_rounds : ℕ
para_rounds = (90 * 4 - 32) / 4

-- What the code takes from the machine: `peek` reads the `int32_t` at an address, or faults, and
-- `scaled w` is the `double` that `((double)w)/16777216.0` computes.
module _ (peek : ℕ → Option ℕ) (scaled : ℕ → ℕ) where
  -- The loop over `i`, with `n` rounds left. `dst` does not move: it stays at `para_data[0]`.
  unfoldable pub para_loop : ℕ → ℕ → ℕ → (ℕ → ℕ) → Option (ℕ → ℕ)
  para_loop zero src i para_data = some para_data
  para_loop (suc n) src i para_data = elim (peek ((src + 4 * i) % 2 ^ 64)) [
    | none ↦ none
    | some w ↦ para_loop n src (i + 1) (put para_data 0 (scaled w))
  ]

  unfoldable pub set_para : ParaForceStdInfo → Interface → Option Interface
  unfolding para_loop set_para_update_flag
  set_para para_ptr s = elim s.para_info [
    | none ↦ none
    | some p ↦ elim (para_loop para_rounds (as_pointer para_ptr.dh_d1) 0 p.para_data) [
      | none ↦ none
      | some d ↦ set_para_update_flag 1 (record s {
        para_info = some (record p {
          posture =
              put (put (put (put p.posture 0 para_ptr.arm) 1 para_ptr.elbow) 2 para_ptr.wrist) 3
                para_ptr.flip;
          para_data = d;
        });
      })
    ]
  ]
