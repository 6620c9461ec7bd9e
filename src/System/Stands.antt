-- ===== src/System/Stands.antt =====
-- How a state of the whole program of System is told from one of its specification: what the messages, the
-- bytes of the reports and the processes stand for.
use virtual_force.Prelude.{
  ℕ, if◌then◌else◌, ◌≡◌, refl, sym, ◌∙◌, arith, true, some, List, map, value_of, ◌⊎◌, Option,
}
use virtual_force.Memory.{Mem}
use virtual_force.Wire.{load_data, load_cmd, data_size}
use virtual_force.Force.Regions.{ForceMonitor, Interface}
use virtual_force.Mmap.Ready.{Ready}
use virtual_force.Controller.{dispatch}
use virtual_force.Controller.Report.{report, report-head}
use virtual_force.Pc.Messages.{read_of, message-read}
use virtual_force.Pc.Clicks.{effect, message-dispatch}
use virtual_force.Pc.Latest.{is_report}
use virtual_force.Main.{Parent}
use virtual_force.Pc.Widget.{
  Qt, Widget, SocketCall, Form, Button, ready_read, handle, ready_read_slot,
}
use virtual_force.System.{System}
use virtual_force.System.Spec.{Spec, Act}

-- The messages that wait or are under way are those of the clicks that wait or asked, the bytes under
-- way hold the reports that wait, and the connection, the regions and the window are the same.
pub record Stands (qt : Qt) (a : Spec) (s : System) : Type 0 where
  pub link_at : s.link ≡ a.link
  pub queued_at : s.queued ≡ map (read_of qt) a.queued
  pub asked_at : s.to_controller ≡ map (read_of qt) a.asked
  pub regions_at : s.parent.force ≡ a.regions
  pub news_at : map load_data s.to_window ≡ map report a.news
  pub held_at : s.window.rcv_msg ≡ a.held
  pub state_at : s.window.lab_force_state ≡ a.state_text
  pub axes_at : s.window.theta_axes ≡ a.axes_texts

-- The same, or what one act makes of it, stands for the state.
abbrev pub Follows : Qt → Spec → System → Type 0
Follows qt a t = Stands qt a t ⊎ ((b : Spec) × Act qt a b × Stands qt b t)

module _ (qt : Qt) where
  -- The parent does with the message of a click what the click asks for.
  pub read_of-dispatch :
      (c : Form × Button) (s : Interface)
      → Ready s
      → dispatch (load_cmd (read_of qt c).data_read) s ≡ some (effect qt c s)
  unfolding read_of
  read_of-dispatch (f, b) s r =
      let (x, ex) = value_of s.service_info r.service in
      let (y, ey) = value_of s.virtual_info r.virtual in
      rw (message-read qt f b) (message-dispatch qt f b s ex ey)

  -- The parent has executed the message of the first click.
  pub does-Stands :
      (a : Spec) (s : System) (c : Form × Button) (cs : List (Form × Button)) (p : Parent)
      → Ready s.parent.force
      → dispatch (load_cmd (read_of qt c).data_read) s.parent.force ≡ some p.force
      → Stands qt a s
      → Stands qt
          (record a { asked = cs; regions = effect qt c a.regions })
          (record s { parent = p; to_controller = map (read_of qt) cs })
  does-Stands a s c cs p ready done d =
      let did : ◌≡◌ {A = Option Interface} (some (effect qt c s.parent.force)) (some p.force) =
        sym (read_of-dispatch c s.parent.force ready) ∙ done in
      let force : effect qt c s.parent.force ≡ p.force = cc in
      record {
        link_at = d.link_at;
        queued_at = d.queued_at;
        asked_at = refl;
        regions_at = rw (sym force, d.regions_at) refl;
        news_at = d.news_at;
        held_at = d.held_at;
        state_at = d.state_at;
        axes_at = d.axes_at;
      }

  -- What bytes that come change of the window.
  pub read-window :
      (m : Mem) (n : ℕ) (w : Widget) {w' : Widget} {calls : List SocketCall}
      → handle qt (ready_read m n) w ≡ some (w', calls)
      → (w'.rcv_msg ≡ (if is_report m n then load_data m else w.rcv_msg))
        × (w'.lab_force_state ≡ w.lab_force_state)
        × (w'.theta_axes ≡ w.theta_axes)
  unfolding handle ready_read_slot is_report
  read-window m n w {w'} h =
      let e : w' ≡ ready_read_slot m n w = cc in
      (rw e (ground arith), rw e (ground arith), rw e (ground arith))

  -- The window has read the first report.
  pub holds-Stands :
      (a : Spec) (s : System) (r : ForceMonitor) (rs : List ForceMonitor) (m : Mem) (ms : List Mem)
      (w : Widget) {calls : List SocketCall}
      → load_data m ≡ report r
      → map load_data ms ≡ map report rs
      → handle qt (ready_read m data_size) s.window ≡ some (w, calls)
      → Stands qt a s
      → Stands qt
          (record a { held = report r; news = rs })
          (record s { window = w; to_window = ms })
  holds-Stands a s r rs m ms w loads others h d =
      let (holds_it, state, axes) = read-window m data_size s.window h in
      let known : is_report m data_size ≡ true =
        unfold is_report in rw (loads, report-head r) refl in
      record {
        link_at = d.link_at;
        queued_at = d.queued_at;
        asked_at = d.asked_at;
        regions_at = d.regions_at;
        news_at = others;
        held_at = rw (known, loads) at holds_it;
        state_at = state ∙ d.state_at;
        axes_at = axes ∙ d.axes_at;
      }
