-- ===== src/Force/Exchange/Mailbox.antt =====
-- Instructions and results over the two regions of force_interface.c, in any order of calls and of turns of
-- the force core. The core is a parameter: when it takes an instruction, and which results it gives.
-- It keeps to the flags: it takes what is marked, and fills the region for results when it is not.
use virtual_force.Prelude.{
  ◌≡◌, refl, sym, ◌∙◌, ap, arith, Bool-cases, inl, inr, Option, none, some, List, [], ◌∷◌, ◌++◌,
  ◌==◌, if◌then◌else◌,
}
use mathlib.Core.List.{append-nil}
use virtual_force.Force.Regions.{ForceInstructionInfo, ForceBackInfo, Interface}
use virtual_force.Force.Exchange.{set_instruct, get_result}

-- The regions, and what was accepted from the callers, taken by the core, given by it, and given to the
-- callers, in order.
pub record Traffic : Type 0 where
  pub force : Interface
  pub accepted : List ForceInstructionInfo
  pub taken : List ForceInstructionInfo
  pub given : List ForceBackInfo
  pub got : List ForceBackInfo

-- A caller sets an instruction, or gets a result into its memory; the core takes an instruction, or gives a
-- result.
pub data Turn : Type 0 where
  sets : ForceInstructionInfo → Turn
  gets : ForceBackInfo → Turn
  core_takes : Turn
  core_gives : ForceBackInfo → Turn

-- `none` is a fault of a caller
unfoldable pub turn : Turn → Traffic → Option Traffic
turn (sets a) t = elim (set_instruct a t.force) [
  | none ↦ none
  | some (done, s) ↦ some (record t {
    force = s;
    accepted = (if done then t.accepted ++ (record a { valid = 1 } ∷ []) else t.accepted);
  })
]
turn (gets c) t = elim (get_result c t.force) [
  | none ↦ none
  | some ((done, out), s) ↦
      some (record t { force = s; got = (if done then t.got ++ (out ∷ []) else t.got) })
]
turn core_takes t = elim t.force.instruct_info [
  | none ↦ some t
  | some r ↦ some (
      if r.valid == 0 then t else record t {
        force = record (t.force) { instruct_info = some (record r { valid = 0 }) };
        taken = t.taken ++ (r ∷ []);
      })
]
turn (core_gives b) t = elim t.force.back_info [
  | none ↦ some t
  | some r ↦ some (
      if r.valid == 0
      then record t {
        force = record (t.force) { back_info = some (record b { valid = 1 }) };
        given = t.given ++ (record b { valid = 1 } ∷ []);
      }
      else t)
]

unfoldable pub turns : List Turn → Traffic → Option Traffic
turns [] t = some t
turns (x ∷ xs) t = elim (turn x t) [ none ↦ none | some t' ↦ turns xs t' ]

-- what waits in a region
abbrev pub waiting : ForceInstructionInfo → List ForceInstructionInfo
waiting r = if r.valid == 0 then [] else r ∷ []

abbrev pub unread : ForceBackInfo → List ForceBackInfo
unread r = if r.valid == 0 then [] else r ∷ []

-- What was accepted is what the core took, and what waits; what the core gave is what the callers got, and what
-- waits.
pub record IsOnce (t : Traffic) : Type 0 where
  pub instruction : ForceInstructionInfo
  pub instruction_at : t.force.instruct_info ≡ some instruction
  pub accepted_at : t.accepted ≡ t.taken ++ waiting instruction
  pub result : ForceBackInfo
  pub result_at : t.force.back_info ≡ some result
  pub given_at : t.given ≡ t.got ++ unread result

turn-IsOnce :
    (x : Turn) (t : Traffic) → IsOnce t → (t' : Traffic) × (turn x t ≡ some t') × IsOnce t'
unfolding turn set_instruct get_result
turn-IsOnce (sets a) t v = elim (Bool-cases (v.instruction.valid == 0)) [
  | inl z ↦
      let accepted : t.accepted ≡ t.taken ++ [] = rw z at v.accepted_at in
      (
        record t {
          force = record (t.force) { instruct_info = some (record a { valid = 1 }) };
          accepted = t.accepted ++ (record a { valid = 1 } ∷ []);
        },
        simp (v.instruction_at, turn, set_instruct, z),
        record {
          instruction = record a { valid = 1 };
          instruction_at = refl;
          accepted_at =
              ap (λ (l : List ForceInstructionInfo). l ++ (record a { valid = 1 } ∷ []))
                (accepted ∙ append-nil t.taken);
          result = v.result;
          result_at = v.result_at;
          given_at = v.given_at;
        },
      )
  | inr z ↦ (t, simp (v.instruction_at, turn, set_instruct, z), v)
]
turn-IsOnce (gets c) t v = elim (Bool-cases (v.result.valid == 0)) [
  | inl z ↦ (t, simp (v.result_at, turn, get_result, z), v)
  | inr z ↦
      let given : t.given ≡ t.got ++ (v.result ∷ []) = rw z at v.given_at in
      (
        record t {
          force = record (t.force) { back_info = some (record (v.result) { valid = 0 }) };
          got = t.got ++ (v.result ∷ []);
        },
        simp (v.result_at, turn, get_result, z),
        record {
          instruction = v.instruction;
          instruction_at = v.instruction_at;
          accepted_at = v.accepted_at;
          result = record (v.result) { valid = 0 };
          result_at = refl;
          given_at = given ∙ sym (append-nil (t.got ++ (v.result ∷ [])));
        },
      )
]
turn-IsOnce core_takes t v = elim (Bool-cases (v.instruction.valid == 0)) [
  | inl z ↦ (t, simp (v.instruction_at, turn, z), v)
  | inr z ↦
      let accepted : t.accepted ≡ t.taken ++ (v.instruction ∷ []) = rw z at v.accepted_at in
      (
        record t {
          force = record (t.force) { instruct_info = some (record (v.instruction) { valid = 0 }) };
          taken = t.taken ++ (v.instruction ∷ []);
        },
        simp (v.instruction_at, turn, z),
        record {
          instruction = record (v.instruction) { valid = 0 };
          instruction_at = refl;
          accepted_at = accepted ∙ sym (append-nil (t.taken ++ (v.instruction ∷ [])));
          result = v.result;
          result_at = v.result_at;
          given_at = v.given_at;
        },
      )
]
turn-IsOnce (core_gives b) t v = elim (Bool-cases (v.result.valid == 0)) [
  | inl z ↦
      let given : t.given ≡ t.got ++ [] = rw z at v.given_at in
      (
        record t {
          force = record (t.force) { back_info = some (record b { valid = 1 }) };
          given = t.given ++ (record b { valid = 1 } ∷ []);
        },
        simp (v.result_at, turn, z),
        record {
          instruction = v.instruction;
          instruction_at = v.instruction_at;
          accepted_at = v.accepted_at;
          result = record b { valid = 1 };
          result_at = refl;
          given_at =
              ap (λ (l : List ForceBackInfo). l ++ (record b { valid = 1 } ∷ []))
                (given ∙ append-nil t.got);
        },
      )
  | inr z ↦ (t, simp (v.result_at, turn, z), v)
]

-- the traffic before any turn
abbrev pub no_traffic : Interface → Traffic
no_traffic s = record { force = s; accepted = []; taken = []; given = []; got = [] }

turns-IsOnce :
    (xs : List Turn) (t : Traffic) → IsOnce t → (t' : Traffic) × (turns xs t ≡ some t') × IsOnce t'
unfolding turns
turns-IsOnce [] t v = (t, refl, v)
turns-IsOnce (x ∷ xs) t v =
    let (t1, e, v1) = turn-IsOnce x t v in
    let (t2, run, v2) = turns-IsOnce xs t1 v1 in (t2, rw (e, turns) run, v2)

-- Instructions and results arrive in order and once: however the calls of
-- `Servo_Force_Comm_Set_Instruct` and `Servo_Force_Comm_Get_Result` and the turns of a core that keeps to
-- the flags come one after the other, when both pointers are set and both regions are empty at first,
-- nobody faults, the instructions that were accepted are those that the core took and, behind them, the
-- one that waits, if one does, and the results that the core gave are those that the callers got and,
-- behind them, the one that waits.
pub mailboxes_in_order :
    (xs : List Turn) (s : Interface) {i : ForceInstructionInfo} {r : ForceBackInfo}
    → s.instruct_info ≡ some i
    → i.valid ≡ 0
    → s.back_info ≡ some r
    → r.valid ≡ 0
    → (t : Traffic) × (turns xs (no_traffic s) ≡ some t) × IsOnce t
mailboxes_in_order xs s {i} {r} ei zi er zr = turns-IsOnce xs (no_traffic s) (record {
  instruction = i;
  instruction_at = ei;
  accepted_at = ground (arith, zi);
  result = r;
  result_at = er;
  given_at = ground (arith, zr);
})
