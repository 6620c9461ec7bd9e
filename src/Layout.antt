-- ===== src/Layout.antt =====
-- How the structs of VirtualForce_linux/force_interface.h and SimForce_Qt/Force_Comm.h lie in memory. A
-- compiler places the fields of a struct one after the other, each at the next multiple of its alignment,
-- and rounds the size up to the largest of these. An `int` takes 4 bytes and is aligned to 4; a
-- `double` takes 8, and its alignment, 4 or 8, depends on the machine: it is a parameter.
pub mod Casts
pub mod Apart
use virtual_force.Prelude.{
  ℕ, zero, suc, ◌+◌, ◌-◌, ◌*◌, ◌/◌, ◌≡◌, ◌⊎◌, ltb, if◌then◌else◌, List, [], ◌∷◌, ◌++◌,
}
use virtual_force.Memory.{Mem}
use virtual_force.Wire.{load}

pub data CType : Type 0 where
  int32 double : CType
  array : CType → ℕ → CType

-- what the machines have
abbrev pub IsDoubleAlign : ℕ → Type 0
IsDoubleAlign al = (al ≡ 4) ⊎ (al ≡ 8)

unfoldable pub size_of : CType → ℕ
size_of int32 = 4
size_of double = 8
size_of (array t n) = n * size_of t

-- the next multiple of `a` from `n` on
unfoldable pub round_up : ℕ → ℕ → ℕ
round_up n a = (n + (a - 1)) / a * a

-- `n` numbers, read with `f`, each `size` bytes behind the one before
unfoldable pub read_items : (ℕ → List ℕ) → ℕ → ℕ → ℕ → List ℕ
read_items f size zero p = []
read_items f size (suc n) p = f p ++ read_items f size n (p + size)

-- the numbers in a field at offset `p`
unfoldable pub read_field : CType → Mem → ℕ → List ℕ
unfolding read_items
read_field int32 m p = load m p 4 ∷ []
read_field double m p = load m p 8 ∷ []
read_field (array t n) m p = read_items (read_field t m) (size_of t) n p

module _ (al : ℕ) where
  unfoldable pub align_of : CType → ℕ
  align_of int32 = 4
  align_of double = al
  align_of (array t n) = align_of t

  -- the numbers in the fields of a struct, from offset `p` on
  unfoldable pub read_fields : List CType → Mem → ℕ → List ℕ
  unfolding round_up
  read_fields [] m p = []
  read_fields (t ∷ ts) m p =
      read_field t m (round_up p (align_of t))
      ++ read_fields ts m (round_up p (align_of t) + size_of t)

  -- where the fields end that start from offset `p` on
  unfoldable pub end_of : List CType → ℕ → ℕ
  unfolding round_up
  end_of [] p = p
  end_of (t ∷ ts) p = end_of ts (round_up p (align_of t) + size_of t)

  unfoldable pub struct_align : List CType → ℕ
  struct_align [] = 1
  struct_align (t ∷ ts) =
      let rest = struct_align ts in if ltb rest (align_of t) then align_of t else rest

  unfoldable pub struct_size : List CType → ℕ
  unfolding round_up end_of struct_align
  struct_size ts = round_up (end_of ts 0) (struct_align ts)

-- `Pc_Comm_Data_t` and `Pc_Comm_Cmd_t`
abbrev pub pc_comm_data : List CType
pc_comm_data = int32 ∷ int32 ∷ array double 6 ∷ []

abbrev pub pc_comm_cmd : List CType
pc_comm_cmd = int32 ∷ int32 ∷ array int32 6 ∷ []

-- `Force_Comm_Rcv_t` and `Force_Comm_Send_t`
abbrev pub force_comm_rcv : List CType
force_comm_rcv = int32 ∷ int32 ∷ array double 6 ∷ []

abbrev pub force_comm_send : List CType
force_comm_send = int32 ∷ int32 ∷ array int32 6 ∷ []

-- `ServoCoreProcessCall_t` and `ForceCoreProcessBack_t`: eight numbers each
abbrev pub servo_core_process_call : List CType
servo_core_process_call = int32 ∷ int32 ∷ int32 ∷ int32 ∷ int32 ∷ int32 ∷ int32 ∷ int32 ∷ []

abbrev pub force_core_process_back : List CType
force_core_process_back = int32 ∷ int32 ∷ int32 ∷ int32 ∷ int32 ∷ int32 ∷ int32 ∷ int32 ∷ []

-- `n` fields of one type
abbrev pub times : ℕ → CType → List CType
times zero t = []
times (suc n) t = t ∷ times n t

-- `PARA_FORCE_STD_INFO_t`: the posture, and 86 numbers behind it
abbrev pub para_force_std_info : List CType
para_force_std_info = int32 ∷ int32 ∷ int32 ∷ int32 ∷ times 86 int32

-- `PARA_FORCE_INFO_t`
abbrev pub para_force_info : List CType
para_force_info = int32 ∷ int32 ∷ array int32 4 ∷ array double 90 ∷ array double 35 ∷ []

-- `FORCE_INSTRUCTION_INFO_t`
abbrev pub force_instruction_info : List CType
force_instruction_info =
    int32
    ∷ int32
    ∷ array double 6
    ∷ array double 6
    ∷ array double 6
    ∷ array double 6
    ∷ array double 6
    ∷ array double 6
    ∷ array double 6
    ∷ array double 6
    ∷ []

-- `FORCE_CORE_STATE_t`
abbrev pub force_core_state : List CType
force_core_state = int32 ∷ int32 ∷ array int32 4 ∷ int32 ∷ int32 ∷ int32 ∷ int32 ∷ []

-- `FORCE_BACK_INFO_t`
abbrev pub force_back_info : List CType
force_back_info = int32 ∷ array int32 6 ∷ array int32 6 ∷ array (array int32 6) 6 ∷ int32 ∷ []

-- `Force_Monitor_t` and `Force_Virtual_Cmd_t`
abbrev pub force_monitor_type : List CType
force_monitor_type = int32 ∷ int32 ∷ array double 6 ∷ []

abbrev pub force_virtual_cmd : List CType
force_virtual_cmd = int32 ∷ array int32 6 ∷ []
