-- ===== src/Force/Params/Loop.antt =====
-- What `Servo_Force_Comm_Set_Para` of force_interface.c leaves in the parameter region.
use virtual_force.Prelude.{
  ℕ, zero, suc, ◌+◌, ◌*◌, ◌%◌, ◌^◌, ◌≤◌, ◌≡◌, ◌≢◌, refl, ap, ◌∙◌, fun_ext, arith, Option, some,
}
use virtual_force.Force.Regions.{ParaForceInfo, ParaForceStdInfo, Interface}
use virtual_force.Force.Params.{put, as_pointer, para_loop, set_para, set_para_update_flag}

module _ (peek : ℕ → Option ℕ) (scaled : ℕ → ℕ) where
  -- the number that round `i` reads, from `src` on
  abbrev pub source : ℕ → ℕ → Option ℕ
  source src i = peek ((src + 4 * i) % 2 ^ 64)

  -- Only entry 0 changes, and it holds what the last round computed.
  para_loop_lem :
      (n src i j : ℕ) (d : ℕ → ℕ) (w : ℕ → ℕ)
      → j ≡ i + n
      → ((k : ℕ) → k ≤ j → source src k ≡ some (w k))
      → para_loop peek scaled (suc n) src i d ≡ some (put d 0 (scaled (w j)))
  unfolding para_loop
  para_loop_lem zero src i j d w e h =
      rw (h i (omega arith), para_loop)
        (ap (λ (k : ℕ). some (put d 0 (scaled (w k)))) (omega arith))
  para_loop_lem (suc n) src i j d w e h =
      rw (h i (omega arith), para_loop)
        (para_loop_lem n src (i + 1) j (put d 0 (scaled (w i))) w (omega arith) h
          ∙ ap {B = Option (ℕ → ℕ)} some (fun_ext λ k. ground arith))

  -- Where the 82 numbers behind the pointer that the value of `dh_d1` makes can be read, the loop
  -- stores all of them in `para_data[0]`: that entry ends as the last of them, and no other entry of
  -- `para_data` changes. The four numbers of the posture arrive and the update flag is set.
  pub set_para_lem :
      (std : ParaForceStdInfo) (s : Interface) {p : ParaForceInfo} (w : ℕ → ℕ)
      → s.para_info ≡ some p
      → ((k : ℕ) → k ≤ 81 → source (as_pointer std.dh_d1) k ≡ some (w k))
      → (q : ParaForceInfo) × (set_para peek scaled std s ≡ some (record s { para_info = some q }))
        × (q.update_flag ≡ 1)
        × (q.para_data 0 ≡ scaled (w 81))
        × ((k : ℕ) → k ≢ 0 → q.para_data k ≡ p.para_data k)
        × (q.posture 0 ≡ std.arm)
        × (q.posture 1 ≡ std.elbow)
        × (q.posture 2 ≡ std.wrist)
        × (q.posture 3 ≡ std.flip)
  unfolding set_para set_para_update_flag
  set_para_lem std s {p} w e h = (
    record p {
      update_flag = 1;
      posture = put (put (put (put p.posture 0 std.arm) 1 std.elbow) 2 std.wrist) 3 std.flip;
      para_data = put p.para_data 0 (scaled (w 81));
    },
    rw (e, para_loop_lem 81 (as_pointer std.dh_d1) 0 81 p.para_data w (omega arith) h),
    refl,
    refl,
    λ k ne. ground arith,
    refl,
    refl,
    refl,
    refl,
  )
