-- ===== src/Controller/Dispatch.antt =====
-- What a command of the PC does to the regions of the force core.
use virtual_force.Prelude.{
  ℕ, ◌≡◌, ◌≢◌, refl, Bool, true, false, Option, none, some, arith, value_of, List, [], ◌∷◌, ◌%◌,
  ◌^◌, ◌&&◌, ◌==◌, if◌then◌else◌, ◌||◌, ◌+◌,
}
use virtual_force.Wire.{PcCommCmd}
use virtual_force.Force.Regions.{ServoCoreProcessCall, ForceVirtualCmd, Interface}
use virtual_force.Force.Service.{
  no_call, cmd_reset_fault_call, cmd_idle_call, cmd_working_call, cmd_set_fault_call, cmd_working,
  cmd_idle, cmd_set_fault, cmd_reset_fault,
}
use virtual_force.Force.Exchange.{virtual_download, dead_beef}
use virtual_force.Mmap.Ready.{Ready}
use virtual_force.Controller.{
  dispatch, reset_fault, idle, working, set_fault, force_give_start, force_give_stop,
}

-- The command for the force core that a command of the PC stands for.
pub servo_cmd : ℕ → Option ℕ
servo_cmd c =
    if c == reset_fault
    then some cmd_reset_fault
    else if c == idle
    then some cmd_idle
    else if c == working
    then some cmd_working
    else if c == set_fault
    then some cmd_set_fault
    else none

-- Whether the command carries a force.
unfoldable pub gives_force : ℕ → Bool
gives_force c = c == force_give_start || c == force_give_stop

-- The command region after a command.
pub service_after : PcCommCmd → ServoCoreProcessCall → ServoCoreProcessCall
service_after c old = elim (servo_cmd c.cmd) [ none ↦ old | some k ↦ record no_call { cmd = k } ]

-- The force region after a command: a region that the core has not emptied is left alone.
pub virtual_after : PcCommCmd → ForceVirtualCmd → ForceVirtualCmd
virtual_after c old =
    if gives_force c.cmd
    then (if old.valid == 0 then record { valid = dead_beef; force = c.params } else old)
    else old

-- The count of forces handed over, after a command.
pub downloads_after : PcCommCmd → ForceVirtualCmd → ℕ → ℕ
downloads_after c old n = if gives_force c.cmd && (old.valid == 0) then (n + 1) % 2 ^ 32 else n

-- Any command, known or not, is executed without a fault when the pointers to the command region
-- and the force region are set: these regions and the count of forces become what `service_after`,
-- `virtual_after` and `downloads_after` say, and no other region changes.
pub dispatch_lem :
    (c : PcCommCmd) (s : Interface) {service : ServoCoreProcessCall} {virtual : ForceVirtualCmd}
    → s.service_info ≡ some service
    → s.virtual_info ≡ some virtual
    → dispatch c s
      ≡ some (record s {
        service_info = some (service_after c service);
        virtual_info = some (virtual_after c virtual);
        downloads = downloads_after c virtual s.downloads;
      })
unfolding dispatch cmd_reset_fault_call cmd_idle_call cmd_working_call cmd_set_fault_call
    virtual_download service_after virtual_after downloads_after servo_cmd gives_force
dispatch_lem c s {service} {virtual} hs hv = ground arith

-- A force goes to an empty region, and no other command touches the region.
pub virtual_after_force :
    (c : PcCommCmd) (old : ForceVirtualCmd)
    → gives_force c.cmd ≡ true
    → old.valid ≡ 0
    → virtual_after c old ≡ record { valid = dead_beef; force = c.params }
unfolding virtual_after
virtual_after_force c old h e = ground arith

pub virtual_after_other :
    (c : PcCommCmd) (old : ForceVirtualCmd) → gives_force c.cmd ≡ false → virtual_after c old ≡ old
unfolding virtual_after
virtual_after_other c old h = ground arith

-- The commands, executed one after the other.
unfoldable pub dispatch_all : List PcCommCmd → Interface → Option Interface
dispatch_all [] s = some s
dispatch_all (c ∷ cs) s = elim (dispatch c s) [ none ↦ none | some s' ↦ dispatch_all cs s' ]

-- all of them carry a force
abbrev pub AllForces : List PcCommCmd → Type 0
AllForces [] = Unit {0}
AllForces (c ∷ cs) = (gives_force c.cmd ≡ true) × AllForces cs

dispatch_busy :
    (c : PcCommCmd) (s : Interface) {virtual : ForceVirtualCmd}
    → gives_force c.cmd ≡ true
    → s.virtual_info ≡ some virtual
    → virtual.valid ≢ 0
    → dispatch c s ≡ some s
unfolding dispatch virtual_download gives_force cmd_reset_fault_call cmd_idle_call cmd_working_call
    cmd_set_fault_call
dispatch_busy c s h hv busy = ground arith

dispatch_free :
    (c : PcCommCmd) (s : Interface) {virtual : ForceVirtualCmd}
    → gives_force c.cmd ≡ true
    → s.virtual_info ≡ some virtual
    → virtual.valid ≡ 0
    → dispatch c s
      ≡ some (record s {
        virtual_info = some (record { valid = dead_beef; force = c.params });
        downloads = (s.downloads + 1) % 2 ^ 32;
      })
unfolding dispatch virtual_download gives_force cmd_reset_fault_call cmd_idle_call cmd_working_call
    cmd_set_fault_call
dispatch_free c s h hv free = ground arith

all_busy :
    (cs : List PcCommCmd) (s : Interface) {virtual : ForceVirtualCmd}
    → AllForces cs
    → s.virtual_info ≡ some virtual
    → virtual.valid ≢ 0
    → dispatch_all cs s ≡ some s
unfolding dispatch_all
all_busy [] s h hv busy = refl
all_busy (c ∷ cs) s h hv busy =
    rw (dispatch_busy c s h.0 hv busy, dispatch_all) (all_busy cs s h.1 hv busy)

-- Until the core takes a force, the first one stands: of any number of forces and stops that arrive in
-- that time, on an empty region, the first is handed over, and all others, the stop that the PC sends
-- when the button is released included, change nothing.
pub first_force_stands :
    (c : PcCommCmd) (cs : List PcCommCmd) (s : Interface) {virtual : ForceVirtualCmd}
    → gives_force c.cmd ≡ true
    → AllForces cs
    → s.virtual_info ≡ some virtual
    → virtual.valid ≡ 0
    → dispatch_all (c ∷ cs) s
      ≡ some (record s {
        virtual_info = some (record { valid = dead_beef; force = c.params });
        downloads = (s.downloads + 1) % 2 ^ 32;
      })
unfolding dispatch_all
first_force_stands c cs s {virtual} h hs hv free =
    rw (dispatch_free c s h hv free, dispatch_all) (all_busy cs _ hs refl (omega arith))

pub dispatch-Ready :
    (c : PcCommCmd) (s : Interface)
    → Ready s
    → (s' : Interface) × (dispatch c s ≡ some s') × Ready s'
dispatch-Ready c s r = (
  _,
  dispatch_lem c s (value_of s.service_info r.service).1 (value_of s.virtual_info r.virtual).1,
  record { service = refl; monitor = r.monitor; virtual = refl },
)
