-- ===== src/Wire.antt =====
-- The structs that the PC and the controller exchange, VirtualForce_linux/force_interface.h
-- (`Pc_Comm_Cmd_t`, `Pc_Comm_Data_t`), and their bytes. A cast between such a struct and a `char`
-- buffer is a reading or a writing of its bytes: `int` is 4 bytes and `double` 8, little endian,
-- with no padding. An `int` is its bit pattern, below 2 ^ 32; a `double` is only moved, so it is its
-- bit pattern, below 2 ^ 64.
pub mod RoundTrip
use virtual_force.Prelude.{ℕ, zero, suc, ◌+◌, ◌-◌, ◌*◌, ◌/◌, ◌%◌, ltb, if◌then◌else◌}
use virtual_force.Memory.{Mem}

-- An array of `MAX_DOFS` numbers, one for each axis.
pub record Axes : Type 0 where
  pub axis_0 : ℕ
  pub axis_1 : ℕ
  pub axis_2 : ℕ
  pub axis_3 : ℕ
  pub axis_4 : ℕ
  pub axis_5 : ℕ

-- `Pc_Comm_Cmd_t`
pub record PcCommCmd : Type 0 where
  pub cmd : ℕ
  pub rsv : ℕ
  pub params : Axes

-- `Pc_Comm_Data_t`
pub record PcCommData : Type 0 where
  pub head : ℕ
  pub force_state : ℕ
  pub force_theta : Axes

-- `sizeof(Pc_Comm_Cmd_t)` and `sizeof(Pc_Comm_Data_t)`
abbrev pub cmd_size : ℕ
cmd_size = 32

abbrev pub data_size : ℕ
data_size = 56

-- `MAGIG_HEAD`
abbrev pub magig_head : ℕ
magig_head = 0x11181118

-- the number in the `n` bytes from offset `p` on
unfoldable pub load : Mem → ℕ → ℕ → ℕ
load m p zero = 0
load m p (suc n) = m p + 256 * load m (p + 1) n

-- byte `k` of a number
unfoldable pub byte : ℕ → ℕ → ℕ
byte w zero = w % 256
byte w (suc k) = byte (w / 256) k

-- six numbers of `n` bytes each, from offset `p` on
unfoldable pub load_axes : Mem → ℕ → ℕ → Axes
load_axes m p n = record {
  axis_0 = load m p n;
  axis_1 = load m (p + n) n;
  axis_2 = load m (p + 2 * n) n;
  axis_3 = load m (p + 3 * n) n;
  axis_4 = load m (p + 4 * n) n;
  axis_5 = load m (p + 5 * n) n;
}

-- byte `i` of six numbers of `n` bytes each
unfoldable pub axes_byte : Axes → ℕ → ℕ → ℕ
axes_byte a n i =
    if ltb i n
    then byte a.axis_0 i
    else if ltb i (2 * n)
    then byte a.axis_1 (i - n)
    else if ltb i (3 * n)
    then byte a.axis_2 (i - 2 * n)
    else if ltb i (4 * n)
    then byte a.axis_3 (i - 3 * n)
    else if ltb i (5 * n)
    then byte a.axis_4 (i - 4 * n)
    else byte a.axis_5 (i - 5 * n)

-- `(Pc_Comm_Cmd_t*)buff`, read
unfoldable pub load_cmd : Mem → PcCommCmd
load_cmd m = record { cmd = load m 0 4; rsv = load m 4 4; params = load_axes m 8 4 }

-- a `Pc_Comm_Cmd_t`, as memory
unfoldable pub store_cmd : PcCommCmd → Mem
store_cmd c i =
    if ltb i 4
    then byte c.cmd i
    else if ltb i 8
    then byte c.rsv (i - 4)
    else axes_byte c.params 4 (i - 8)

-- `(Force_Comm_Rcv_t*)data`, read
unfoldable pub load_data : Mem → PcCommData
load_data m = record { head = load m 0 4; force_state = load m 4 4; force_theta = load_axes m 8 8 }

-- a `Pc_Comm_Data_t`, as memory
unfoldable pub store_data : PcCommData → Mem
store_data d i =
    if ltb i 4
    then byte d.head i
    else if ltb i 8
    then byte d.force_state (i - 4)
    else axes_byte d.force_theta 8 (i - 8)
