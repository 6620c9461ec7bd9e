-- ===== src/Force/Service/Calls.antt =====
-- Any calls of force_interface.c that send a service command, one after the other, and what the force core
-- can read from the region after them.
use virtual_force.Prelude.{ℕ, ◌≡◌, refl, arith, Option, none, some, List, [], ◌∷◌, ◌++◌}
use virtual_force.Force.Regions.{ServoCoreProcessCall, Interface}
use virtual_force.Force.Codes.{
  ServoCmdE, servo_cmd, ForceDignoseVarE, force_dignose_var, cmd_working, cmd_idle, cmd_set_fault,
  cmd_reset_fault, cmd_switch_mode,
}
use virtual_force.Force.Codes.Told.{told, servo_cmds, servo_cmd-IsTold, force_dignose_var-lt}
use virtual_force.Force.Service.{
  no_call, pack, cmd_working_call, cmd_idle_call, cmd_mode_call, cmd_set_fault_call,
  cmd_reset_fault_call, cmd_dignose_cfg_call,
}
use virtual_force.Force.Service.Pack.{halves, halves-pack}

-- A call; those of the diagnosis come with the enumerators in the array.
pub data ServiceCall : Type 0 where
  work idle set_fault reset_fault : ServiceCall
  mode : ℕ → ℕ → ServiceCall
  dignose_cfg : (ℕ → ForceDignoseVarE) → ServiceCall

unfoldable pub perform : ServiceCall → Interface → Option Interface
perform work = cmd_working_call
perform idle = cmd_idle_call
perform set_fault = cmd_set_fault_call
perform reset_fault = cmd_reset_fault_call
perform (mode m u) = cmd_mode_call m u
perform (dignose_cfg v) = cmd_dignose_cfg_call (λ k. force_dignose_var (v k))

unfoldable pub perform_all : List ServiceCall → Interface → Option Interface
perform_all [] s = some s
perform_all (c ∷ cs) s = elim (perform c s) [ none ↦ none | some s' ↦ perform_all cs s' ]

-- the command under which a call arrives
unfoldable pub cmd_of : ServiceCall → ServoCmdE
cmd_of work = cmd_working
cmd_of idle = cmd_idle
cmd_of set_fault = cmd_set_fault
cmd_of reset_fault = cmd_reset_fault
cmd_of (mode m u) = cmd_switch_mode
cmd_of (dignose_cfg v) = cmd_switch_mode

-- What the parameters of a command say of a call.
abbrev pub Says : ServoCoreProcessCall → ServiceCall → Type 0
Says r (mode m u) = (r.param1 ≡ m) × (r.param2 ≡ u) × (r.param3 ≡ 0)
Says r (dignose_cfg v) =
    (halves r.param1 ≡ (force_dignose_var (v 0), force_dignose_var (v 1)))
    × (halves r.param2 ≡ (force_dignose_var (v 2), force_dignose_var (v 3)))
    × (halves r.param3 ≡ (force_dignose_var (v 4), force_dignose_var (v 5)))
Says r _ = (r.param1 ≡ 0) × (r.param2 ≡ 0) × (r.param3 ≡ 0)

sent : ServiceCall → ServoCoreProcessCall
sent work = record no_call { cmd = servo_cmd cmd_working }
sent idle = record no_call { cmd = servo_cmd cmd_idle }
sent set_fault = record no_call { cmd = servo_cmd cmd_set_fault }
sent reset_fault = record no_call { cmd = servo_cmd cmd_reset_fault }
sent (mode m u) = record no_call { cmd = servo_cmd cmd_switch_mode; param1 = m; param2 = u }
sent (dignose_cfg v) = record no_call {
  cmd = servo_cmd cmd_switch_mode;
  param1 = pack (force_dignose_var (v 0)) (force_dignose_var (v 1));
  param2 = pack (force_dignose_var (v 2)) (force_dignose_var (v 3));
  param3 = pack (force_dignose_var (v 4)) (force_dignose_var (v 5));
}

perform-sent :
    (c : ServiceCall) (s : Interface) {old : ServoCoreProcessCall}
    → s.service_info ≡ some old
    → perform c s ≡ some (record s { service_info = some (sent c) })
unfolding perform sent servo_cmd cmd_working_call cmd_idle_call cmd_mode_call cmd_set_fault_call
    cmd_reset_fault_call cmd_dignose_cfg_call
perform-sent c s e = ground (arith, e)

sent-Says : (c : ServiceCall) → Says (sent c) c
unfolding sent
sent-Says work = (refl, refl, refl)
sent-Says idle = (refl, refl, refl)
sent-Says set_fault = (refl, refl, refl)
sent-Says reset_fault = (refl, refl, refl)
sent-Says (mode m u) = (refl, refl, refl)
sent-Says (dignose_cfg v) = (both 0 1, both 2 3, both 4 5)
  where
    both :
        (i j : ℕ)
        → halves (pack (force_dignose_var (v i)) (force_dignose_var (v j)))
          ≡ (force_dignose_var (v i), force_dignose_var (v j))
    both i j = halves-pack _ _ (force_dignose_var-lt (v i)) (force_dignose_var-lt (v j))

sent-cmd : (c : ServiceCall) → (sent c).cmd ≡ servo_cmd (cmd_of c)
unfolding sent cmd_of
sent-cmd c = ground arith

abbrev pub RestIsZero : ServoCoreProcessCall → Type 0
RestIsZero r = (r.param4 ≡ 0) × (r.param5 ≡ 0) × (r.param6 ≡ 0) × (r.param7 ≡ 0)

sent-RestIsZero : (c : ServiceCall) → RestIsZero (sent c)
unfolding sent
sent-RestIsZero c = ground arith

-- The last call stands: when the pointer is set, any number of calls that send a service command do not
-- fault, and after them the region holds the last one, with nothing of those before it: its number is
-- that of one command, its parameters say the mode, or the six diagnosis variables in their halves, or
-- are 0, the four others are 0, and no other region has changed. A configuration of the diagnosis comes
-- under the number of a switch of mode.
pub last_call_stands :
    (cs : List ServiceCall) (c : ServiceCall) (s : Interface) {old : ServoCoreProcessCall}
    → s.service_info ≡ some old
    → (r : ServoCoreProcessCall) × (perform_all (cs ++ (c ∷ [])) s
        ≡ some (record s { service_info = some r }))
      × (told servo_cmd servo_cmds r.cmd ≡ some (cmd_of c))
      × Says r c
      × RestIsZero r
unfolding perform_all
last_call_stands [] c s e = (
  sent c,
  rw (perform-sent c s e, perform_all) refl,
  rw (sent-cmd c) (servo_cmd-IsTold (cmd_of c)),
  sent-Says c,
  sent-RestIsZero c,
)
last_call_stands (d ∷ cs) c s e =
    rw (perform-sent d s e, perform_all)
      (last_call_stands cs c (record s { service_info = some (sent d) }) refl)
