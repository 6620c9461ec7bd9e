-- ===== src/Pc/Clicks.antt =====
-- What the buttons of SimForce_Qt/widget.cpp make the parent of VirtualForce_linux/main.c do.
use virtual_force.Prelude.{
  ◌+◌, ◌%◌, ◌^◌, ◌≡◌, refl, arith, ◌==◌, none, some, List, [], ◌∷◌, map, if◌then◌else◌, value_of,
}
use virtual_force.Wire.{Axes}
use virtual_force.Force.Regions.{Interface, ServoCoreProcessCall, ForceVirtualCmd}
use virtual_force.Force.Service.{
  no_call, cmd_reset_fault_call, cmd_idle_call, cmd_working_call, cmd_set_fault_call, cmd_working,
  cmd_idle, cmd_set_fault, cmd_reset_fault,
}
use virtual_force.Force.Exchange.{no_force, dead_beef, virtual_download}
use virtual_force.Network.{Receive}
use virtual_force.Mmap.Ready.{Ready}
use virtual_force.Controller.{dispatch}
use virtual_force.Pc.Messages.{
  clicks, arriving, number, form_force, params_of, message, read_of, handle_all-arriving,
  message-read,
}
use virtual_force.Main.{Parent, running, rounds}
use virtual_force.Main.Rounds.{execute, Carries, Steady, rounds_deliver}
use virtual_force.Pc.Widget.{
  Qt, Form, Widget, SocketCall, Button, reset_fault_clicked, idle_clicked, working_clicked,
  set_fault_clicked, force_pressed, force_released, Event, handle_all,
}

-- A force goes to an empty region only.
pub with_force : Axes → Interface → Interface
with_force force s = elim s.virtual_info [
  | none ↦ s
  | some v ↦
      if v.valid == 0
      then record s {
        virtual_info = some (record { valid = dead_beef; force = force });
        downloads = (s.downloads + 1) % 2 ^ 32;
      }
      else s
]

with_force-Ready : (force : Axes) (s : Interface) → Ready s → Ready (with_force force s)
unfolding with_force
with_force-Ready force s r =
    let (y, e) = value_of s.virtual_info r.virtual in
    record {
      service = ground (arith, e, r.service);
      monitor = ground (arith, e, r.monitor);
      virtual = ground (arith, e);
    }

module _ (qt : Qt) where
  -- what a click does to the regions of the force core
  pub effect : Form × Button → Interface → Interface
  effect (f, reset_fault_clicked) s = record s {
    service_info = some (record no_call { cmd = cmd_reset_fault });
  }
  effect (f, idle_clicked) s = record s { service_info = some (record no_call { cmd = cmd_idle }) }
  effect (f, working_clicked) s = record s {
    service_info = some (record no_call { cmd = cmd_working });
  }
  effect (f, set_fault_clicked) s = record s {
    service_info = some (record no_call { cmd = cmd_set_fault });
  }
  effect (f, force_pressed) s = with_force (form_force qt f) s
  effect (f, force_released) s = with_force no_force s

  unfoldable pub effects : List (Form × Button) → Interface → Interface
  effects [] s = s
  effects (c ∷ cs) s = effects cs (effect c s)

  -- The parent does with a message what the button stands for.
  pub message-dispatch :
      (f : Form) (b : Button) (s : Interface) {x : ServoCoreProcessCall} {y : ForceVirtualCmd}
      → s.service_info ≡ some x
      → s.virtual_info ≡ some y
      → dispatch (message qt f b) s ≡ some (effect (f, b) s)
  unfolding message number params_of form_force effect with_force dispatch cmd_reset_fault_call
      cmd_idle_call cmd_working_call cmd_set_fault_call virtual_download
  message-dispatch f reset_fault_clicked s hx hy = ground arith
  message-dispatch f idle_clicked s hx hy = ground arith
  message-dispatch f working_clicked s hx hy = ground arith
  message-dispatch f set_fault_clicked s hx hy = ground arith
  message-dispatch f force_pressed s hx hy = ground arith
  message-dispatch f force_released s hx hy = ground arith

  effect-Ready : (f : Form) (b : Button) (s : Interface) → Ready s → Ready (effect (f, b) s)
  unfolding effect with_force
  effect-Ready f reset_fault_clicked s r = record {
    service = refl;
    monitor = r.monitor;
    virtual = r.virtual;
  }
  effect-Ready f idle_clicked s r = record {
    service = refl;
    monitor = r.monitor;
    virtual = r.virtual;
  }
  effect-Ready f working_clicked s r = record {
    service = refl;
    monitor = r.monitor;
    virtual = r.virtual;
  }
  effect-Ready f set_fault_clicked s r = record {
    service = refl;
    monitor = r.monitor;
    virtual = r.virtual;
  }
  effect-Ready f force_pressed s r = with_force-Ready (form_force qt f) s r
  effect-Ready f force_released s r = with_force-Ready no_force s r

  execute-effects :
      (cs : List (Form × Button)) (s : Interface)
      → Ready s
      → execute (map (read_of qt) cs) s ≡ some (effects cs s)
  unfolding execute read_of effects
  execute-effects [] s r = refl
  execute-effects ((f, b) ∷ cs) s r =
      let (x, ex) = value_of s.service_info r.service in
      let (y, ey) = value_of s.virtual_info r.virtual in
      rw (message-read qt f b, message-dispatch f b s ex ey, execute)
        (execute-effects cs (effect (f, b) s) (effect-Ready f b s r))

  -- What a user clicks on the window is done: however the clicks and the other signals of the window
  -- follow one another, when each message arrives whole in one read while the connection stands, the
  -- parent goes on in a steady state, without a fault, and the regions of the force core are changed by
  -- the clicks, each once and in their order, and by nothing else.
  pub clicks_done :
      (es : List Event) (w : Widget) (oss : List Receive) (p : Parent) {w' : Widget}
      {calls : List SocketCall}
      → handle_all qt es w ≡ some (w', calls)
      → Steady p
      → Carries oss (arriving calls)
      → (p' : Parent) × (rounds oss (running p) ≡ running p')
        × Steady p'
        × (p'.force ≡ effects (clicks es) p.force)
  clicks_done es w oss p {w'} {calls} h v c =
      let (p', e, v', d) =
        rounds_deliver oss (map (read_of qt) (clicks es)) p v
          (rw (handle_all-arriving qt es w h) at c) in
      (p', e, v', ground (arith, execute-effects (clicks es) p.force v.ready))
