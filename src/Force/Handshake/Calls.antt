-- ===== src/Force/Handshake/Calls.antt =====
-- Calls of force_interface.c on its words, one after the other.
use virtual_force.Prelude.{
  ℕ, suc, ◌+◌, ◌%◌, ◌^◌, ◌<◌, ◌≡◌, refl, sym, arith, none, some, Option, true, List, [], ◌∷◌,
}
use virtual_force.Force.Params.{put}
use virtual_force.Force.Regions.{Interface}
use virtual_force.Force.Handshake.{
  magic_req_data, magic_bind_data, magic_connect_data, shake_hand_request, shake_hand_bind,
  write_word, read_word, get_force_heart, servo_heart_inc, get_state,
}
use virtual_force.Force.Handshake.Words.{seen, shake_hand_bind_lem}

-- A call: a request, a bind with the values of word 0 that its loop reads, a heartbeat.
pub data Call : Type 0 where
  request : Call
  bind : List ℕ → Call
  heart : Call

-- `none` is a fault, or a bind that still waits.
pub call : Call → Interface → Option Interface
call request s = shake_hand_request s
call (bind reads) s = elim (shake_hand_bind reads s) [ none ↦ none | some o ↦ o ]
call heart s = servo_heart_inc s

unfoldable pub calls : List Call → Interface → Option Interface
calls [] s = some s
calls (c ∷ cs) s = elim (call c s) [ none ↦ none | some s' ↦ calls cs s' ]

pub hearts : List Call → ℕ
hearts [] = 0
hearts (request ∷ cs) = hearts cs
hearts (bind reads ∷ cs) = hearts cs
hearts (heart ∷ cs) = suc (hearts cs)

-- the core answers each bind
abbrev pub AllAnswered : List Call → Type 0
AllAnswered [] = Unit {0}
AllAnswered (request ∷ cs) = AllAnswered cs
AllAnswered (bind reads ∷ cs) = (seen magic_bind_data reads ≡ true) × AllAnswered cs
AllAnswered (heart ∷ cs) = AllAnswered cs

-- the words after a call
after : Call → (ℕ → ℕ) → ℕ → ℕ
after request w = put w 0 magic_req_data
after (bind reads) w = put w 3 magic_connect_data
after heart w = put w 2 ((w 2 + 1) % 2 ^ 32)

call_lem :
    (c : Call) (cs : List Call) (s : Interface) {w : ℕ → ℕ}
    → s.comm_info ≡ some w
    → AllAnswered (c ∷ cs)
    → (call c s ≡ some (record s { comm_info = some (after c w) })) × AllAnswered cs
unfolding call after shake_hand_request servo_heart_inc write_word
call_lem request cs s e a = (rw e refl, a)
call_lem (bind reads) cs s e a = (rw (shake_hand_bind_lem reads s e, call, a.0) refl, a.1)
call_lem heart cs s e a = (rw e refl, a)

-- The state of the core is left alone, and word 2 counts.
abbrev Counted : List Call → (ℕ → ℕ) → (ℕ → ℕ) → Type 0
Counted cs w w' = (w' 2 ≡ (w 2 + hearts cs) % 2 ^ 32) × (w' 4 ≡ w 4) × (w' 1 ≡ w 1)

calls_lem :
    (cs : List Call) (s : Interface) {w : ℕ → ℕ}
    → s.comm_info ≡ some w
    → AllAnswered cs
    → w 2 < 2 ^ 32
    → (w' : ℕ → ℕ) × (calls cs s ≡ some (record s { comm_info = some w' })) × Counted cs w w'
unfolding calls hearts after
calls_lem [] s {w} e a h = (w, rw (sym e) refl, (omega arith, refl, refl))
calls_lem (request ∷ cs) s {w} e a h =
    let (k, a') = call_lem request cs s e a in
    let (w', run, q) =
      calls_lem cs (record s { comm_info = some (put w 0 magic_req_data) }) refl a' h in
    (w', rw (k, calls) run, q)
calls_lem (bind reads ∷ cs) s {w} e a h =
    let (k, a') = call_lem (bind reads) cs s e a in
    let (w', run, q) =
      calls_lem cs (record s { comm_info = some (put w 3 magic_connect_data) }) refl a' h in
    (w', rw (k, calls) run, q)
calls_lem (heart ∷ cs) s {w} e a h =
    let (k, a') = call_lem heart cs s e a in
    let (w', run, (beats, state, own)) =
      calls_lem cs (record s { comm_info = some (put w 2 ((w 2 + 1) % 2 ^ 32)) }) refl a'
        (omega arith) in
    (w', rw (k, calls) run, (omega (arith, beats), state, own))

-- The heartbeat of the force core is not what is read: after any requests, binds that the core answers,
-- and heartbeats, when the pointer to the words is set, word 2 holds 32 bits, and the core writes no
-- other word meanwhile than word 0 in the binds, `Servo_Force_Comm_Get_ForceHeart` gives what
-- word 2 held at first and the number of the own heartbeats, modulo 2 ^ 32; the state of the core,
-- which `Servo_Force_Comm_Get_State` gives, and word 1 are as they were.
pub own_hearts_counted :
    (cs : List Call) (s : Interface) {w : ℕ → ℕ}
    → s.comm_info ≡ some w
    → AllAnswered cs
    → w 2 < 2 ^ 32
    → (s' : Interface) × (calls cs s ≡ some s')
      × (get_force_heart s' ≡ some ((w 2 + hearts cs) % 2 ^ 32, s'))
      × (get_state s' ≡ some (w 4, s'))
      × (read_word 1 s' ≡ some (w 1, s'))
unfolding get_force_heart get_state read_word
own_hearts_counted cs s e a h =
    let (w', run, (beats, state, own)) = calls_lem cs s e a h in
    (record s { comm_info = some w' }, run, rw beats refl, rw state refl, rw own refl)
