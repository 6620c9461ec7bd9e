-- ===== src/Pc/States.antt =====
-- The states of the force core, `FORCE_CORE_STATE_e` of VirtualForce_linux/force_interface.h, and the
-- names that SimForce_Qt/Force_Comm.h has for them.
use Prim.Native.String.{String}
use virtual_force.Prelude.{ℕ, ◌<◌, ◌≡◌, refl, arith, some}
use virtual_force.Pc.Comm.{state_name}

pub data ForceCoreStateE : Type 0 where
  sm_init : ForceCoreStateE
  sm_idle : ForceCoreStateE
  sm_working : ForceCoreStateE
  sm_error : ForceCoreStateE

unfoldable pub number_of : ForceCoreStateE → ℕ
number_of sm_init = 1
number_of sm_idle = 2
number_of sm_working = 3
number_of sm_error = 5

-- the name that the window should show
abbrev pub name_of : ForceCoreStateE → String
name_of sm_init = "FORCE_INIT"
name_of sm_idle = "FORCE_IDLE"
name_of sm_working = "FORCE_WORKING"
name_of sm_error = "FORCE_FAULT"

-- Both programs mean the same by the number of a state, and each number is an index of `state_str`.
pub state_name-number_of :
    (c : ForceCoreStateE) → (state_name (number_of c) ≡ some (name_of c)) × (number_of c < 6)
unfolding state_name number_of
state_name-number_of sm_init = (refl, omega arith)
state_name-number_of sm_idle = (refl, omega arith)
state_name-number_of sm_working = (refl, omega arith)
state_name-number_of sm_error = (refl, omega arith)
