-- ===== src/Force/Handshake.antt =====
-- The words at `comm_info` of VirtualForce_linux/force_interface.c: the handshake with the force
-- core, the heartbeats and its state.
pub mod Words
pub mod Calls
use virtual_force.Prelude.{
  ℕ, suc, ◌+◌, ◌%◌, ◌^◌, ◌==◌, if◌then◌else◌, List, [], ◌∷◌, Option, none, some,
}
use virtual_force.Force.Params.{put}
use virtual_force.Force.Regions.{Interface, Access}

abbrev pub magic_req_data : ℕ
magic_req_data = 0xaa55aa55

abbrev pub magic_bind_data : ℕ
magic_bind_data = 0x55aa55aa

abbrev pub magic_connect_data : ℕ
magic_connect_data = 0xa5a5a5a5

-- `*(comm_info+k)`, read and written
unfoldable pub read_word : ℕ → Interface → Access ℕ
read_word k s = elim s.comm_info [ none ↦ none | some w ↦ some (w k, s) ]

unfoldable pub write_word : ℕ → ℕ → Interface → Option Interface
write_word k v s = elim s.comm_info [
  | none ↦ none
  | some w ↦ some (record s { comm_info = some (put w k v) })
]

-- `Servo_Force_Comm_ShakeHand_Request`
unfoldable pub shake_hand_request : Interface → Option Interface
unfolding write_word
shake_hand_request = write_word 0 magic_req_data

-- `Servo_Force_Comm_ShakeHand_Bind`. The force core writes word 0 while the loop runs: the list has
-- its values at the reads of the loop, one after the other. `none` is a fault; `some none` is a loop
-- that still waits when the list ends.
unfoldable pub shake_hand_bind : List ℕ → Interface → Option (Option Interface)
unfolding write_word
shake_hand_bind [] s = elim s.comm_info [ none ↦ none | some w ↦ some none ]
shake_hand_bind (v ∷ reads) s =
    let wait = shake_hand_bind reads s in
    if v == magic_bind_data
    then elim (write_word 3 magic_connect_data s) [ none ↦ none | some s' ↦ some (some s') ]
    else elim s.comm_info [ none ↦ none | some w ↦ wait ]

-- `Servo_Force_Comm_Get_ForceHeart`
unfoldable pub get_force_heart : Interface → Access ℕ
unfolding read_word
get_force_heart = read_word 2

-- `Servo_Force_Comm_ServoHeart_Inc`
unfoldable pub servo_heart_inc : Interface → Option Interface
unfolding write_word
servo_heart_inc s = elim s.comm_info [ none ↦ none | some w ↦ write_word 2 ((w 2 + 1) % 2 ^ 32) s ]

-- `Servo_Force_Comm_Get_State`
unfoldable pub get_state : Interface → Access ℕ
unfolding read_word
get_state = read_word 4
