-- ===== src/Force/Handshake/Words.antt =====
-- What the operations on the words of force_interface.c do to them.
use virtual_force.Prelude.{
  ℕ, ◌+◌, ◌%◌, ◌^◌, ◌≡◌, refl, arith, none, some, ◌==◌, if◌then◌else◌, true, false, List, [], ◌∷◌,
  Bool,
}
use virtual_force.Force.Params.{put}
use virtual_force.Force.Regions.{Interface}
use virtual_force.Force.Handshake.{
  magic_bind_data, magic_connect_data, shake_hand_bind, write_word, read_word, get_force_heart,
  servo_heart_inc, get_state,
}

-- whether a value is among these
unfoldable pub seen : ℕ → List ℕ → Bool
seen v [] = false
seen v (x ∷ xs) = let rest = seen v xs in if x == v then true else rest

-- The loop of `Servo_Force_Comm_ShakeHand_Bind` ends as soon as it reads the force core's answer, and
-- only then: it writes word 3 and no other. Without an answer it still waits.
pub shake_hand_bind_lem :
    (reads : List ℕ) (s : Interface) {w : ℕ → ℕ}
    → s.comm_info ≡ some w
    → shake_hand_bind reads s
      ≡ some (
          if seen magic_bind_data reads
          then some (record s { comm_info = some (put w 3 magic_connect_data) })
          else none)
unfolding shake_hand_bind write_word seen
shake_hand_bind_lem [] s e = rw e
shake_hand_bind_lem (x ∷ reads) s e = ground (arith, shake_hand_bind_lem reads s e)

-- `Servo_Force_Comm_ServoHeart_Inc` counts up the word that `Servo_Force_Comm_Get_ForceHeart` reads
-- as the heartbeat of the force core, modulo 2 ^ 32, and leaves word 1, the heartbeat of the servo
-- core in force_interface.h, and all other words alone.
pub servo_heart_inc_lem :
    (s : Interface) {w : ℕ → ℕ}
    → s.comm_info ≡ some w
    → (s' : Interface) × (servo_heart_inc s ≡ some s')
      × (get_force_heart s' ≡ some ((w 2 + 1) % 2 ^ 32, s'))
      × (get_state s' ≡ some (w 4, s'))
      × (read_word 1 s' ≡ some (w 1, s'))
unfolding servo_heart_inc write_word get_force_heart get_state read_word
servo_heart_inc_lem s {w} e =
    (record s { comm_info = some (put w 2 ((w 2 + 1) % 2 ^ 32)) }, rw e, refl, refl, refl)
