-- ===== src/Pc/Comm.antt =====
-- SimForce_Qt/Force_Comm.h: the two structs of the socket, the names of the states and the numbers of
-- the commands. The structs have the fields of `Pc_Comm_Cmd_t` and `Pc_Comm_Data_t`, in their order.
use Prim.Native.String.{String}
use text.Mathlib.Text.{◌==◌ as str_eq}
use virtual_force.Prelude.{ℕ, Option, List, [], ◌∷◌, if◌then◌else◌, get_elem?}
use virtual_force.Wire.{PcCommCmd, PcCommData}

-- `Force_Comm_Send_t`
abbrev pub ForceCommSend : Type 0
ForceCommSend = PcCommCmd

-- `Force_Comm_Rcv_t`, of 56 bytes
abbrev pub ForceCommRcv : Type 0
ForceCommRcv = PcCommData

-- `state_str`
abbrev pub state_str : List String
state_str =
    "FORCE_BOOT" ∷ "FORCE_INIT" ∷ "FORCE_IDLE" ∷ "FORCE_WORKING" ∷ "FORCE_ABORT" ∷ "FORCE_FAULT"
    ∷ []

-- `state_str[i]` for an `int` with the bit pattern `i`; `none` is an access out of the array.
unfoldable pub state_name : ℕ → Option String
state_name i = get_elem? state_str i

abbrev pub commands : List (String × ℕ)
commands =
    ("Cmd_resetFault", 11)
    ∷ ("Cmd_idle", 12)
    ∷ ("Cmd_working", 13)
    ∷ ("Cmd_setFault", 14)
    ∷ ("FORCE_GIVE_START", 15)
    ∷ ("FORCE_GIVE_STOP", 16)
    ∷ []

-- `QMap::operator[]` on a constant map: 0 for a key that is not in it.
unfoldable pub value : String → List (String × ℕ) → ℕ
value key [] = 0
value key ((k, v) ∷ m) = if str_eq k key then v else value key m

unfoldable pub command : String → ℕ
unfolding value
command key = value key commands
