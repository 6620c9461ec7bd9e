-- ===== src/Force/Exchange/Once.antt =====
-- The flags of the regions of force_interface.c over two calls in a row.
use virtual_force.Prelude.{
  ◌≡◌, refl, sym, Bool-cases, inl, inr, some, ◌==◌, if◌then◌else◌, true, false, Bool,
}
use virtual_force.Force.Regions.{ForceInstructionInfo, ForceBackInfo, Interface}
use virtual_force.Force.Exchange.{set_instruct, get_result}

-- An instruction is taken only by an empty region, and stays there until the force core empties it:
-- a second one right after it is refused, and changes nothing.
set_instruct_twice :
    (a b : ForceInstructionInfo) (s : Interface) {r : ForceInstructionInfo}
    → s.instruct_info ≡ some r
    → (done : Bool) × (s' : Interface) × (set_instruct a s ≡ some (done, s'))
      × (set_instruct b s' ≡ some (false, s'))
      × (done ≡ (r.valid == 0))
      × (s'.instruct_info ≡ some (if r.valid == 0 then record a { valid = 1 } else r))
unfolding set_instruct
set_instruct_twice a b s {r} e = elim (Bool-cases (r.valid == 0)) [
  | inl z ↦ (
    true,
    record s { instruct_info = some (record a { valid = 1 }) },
    simp (e, set_instruct, z),
    refl,
    sym z,
    rw z,
  )
  | inr z ↦ (false, s, simp (e, set_instruct, z), simp (e, set_instruct, z), sym z, rw z e)
]

-- A result is given out once: the first call copies it, flag included, and marks it as taken, so that a
-- second call right after it returns -1 and leaves its memory alone.
get_result_twice :
    (a b : ForceBackInfo) (s : Interface) {r : ForceBackInfo}
    → s.back_info ≡ some r
    → (s' : Interface) × (get_result a s
        ≡ some ((if r.valid == 0 then (false, a) else (true, r)), s'))
      × (get_result b s' ≡ some ((false, b), s'))
unfolding get_result
get_result_twice a b s {r} e = elim (Bool-cases (r.valid == 0)) [
  | inl z ↦ (s, simp (e, get_result, z), simp (e, get_result, z))
  | inr z ↦ (record s { back_info = some (record r { valid = 0 }) }, simp (e, get_result, z), refl)
]

-- Each region is used once by two calls in a row, whatever it holds, when its pointer is set. An empty
-- region takes the first instruction and refuses the second; a full one refuses both and stays as it is.
-- A result is given out by the first call, if there is one, flag included, and the second returns -1
-- and leaves its memory alone.
pub exchange_once :
    (a b : ForceInstructionInfo) (c d : ForceBackInfo) (s : Interface) {i : ForceInstructionInfo}
    {r : ForceBackInfo}
    → s.instruct_info ≡ some i
    → s.back_info ≡ some r
    → ((done : Bool) × (s' : Interface) × (set_instruct a s ≡ some (done, s'))
        × (set_instruct b s' ≡ some (false, s'))
        × (done ≡ (i.valid == 0))
        × (s'.instruct_info ≡ some (if i.valid == 0 then record a { valid = 1 } else i)))
      × ((s' : Interface) × (get_result c s
            ≡ some ((if r.valid == 0 then (false, c) else (true, r)), s'))
          × (get_result d s' ≡ some ((false, d), s')))
exchange_once a b c d s e k = (set_instruct_twice a b s e, get_result_twice c d s k)
