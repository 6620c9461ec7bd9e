-- ===== src/Examples/Systems.antt =====
-- The theorems on the whole program at a run: a click, its command, a report, and its reading.
use virtual_force.Prelude.{ℕ, true, ◌≡◌, refl, ap, arith, none, List, [], ◌∷◌, ◌++◌}
use virtual_force.Memory.{Mem}
use virtual_force.Wire.{data_size, store_cmd}
use virtual_force.Force.Exchange.{no_force}
use virtual_force.Pc.Comm as PcComm
use Prim.Native.String.{String}
use virtual_force.Network.{Fread, Receive, established}
use virtual_force.Controller.Report.{display_lem}
use virtual_force.Main.Rounds.{round_delivers}
use virtual_force.Pc.Widget.{Widget, idle_clicked, pressed, widget, handle, on_btn, ready_read_slot}
use virtual_force.Pc.Messages.{arriving}
use virtual_force.System.{System, Link, user, executes, reports, reads, IsNews, Reach, later}
use virtual_force.System.Sound.{IsSound}
use virtual_force.System.Keeps.{Reach-IsSound}
use virtual_force.System.Start.{started, started-IsSound}
use virtual_force.System.Spec.{Spec}
use virtual_force.System.Stands.{Stands}
use virtual_force.Examples.Inputs.{command, net, start, contents, message}
use virtual_force.Examples.Boots.{first, booted}
use virtual_force.Examples.Window.{qt, form}

monitor-IsNews : (a : ℕ) → IsNews (contents.monitor a)
monitor-IsNews a = record { known = omega arith; fits = omega arith }

first-IsSound : IsSound (started first)
first-IsSound = started-IsSound start booted monitor-IsNews

abbrev click : Fread
click = record {
  data_read = store_cmd (record { cmd = 12; rsv = 0; params = no_force });
  count = 32;
  error = none;
}

abbrev os : Receive
os = record (message (command 12)) { reads = click ∷ [] }

clicked_run :
    (s : System) × Reach qt (started first) s
    × (s.to_controller ≡ click ∷ [])
    × (s.parent ≡ first)
    × (s.to_window ≡ [])
    × (s.link ≡ Link.up)
    × (s.child_runs ≡ true)
unfolding handle arriving on_btn PcComm.command
clicked_run = (
  record (started first) { to_controller = click ∷ [] },
  later Reach.start
      (user (pressed form idle_clicked) widget (on_btn qt form idle_clicked) refl refl),
  refl,
  refl,
  refl,
  refl,
  refl,
)

-- The command is consumed, the child reports, and the window reads the report.
run : (s : System) × Reach qt (started first) s
unfolding handle
run =
    let (s1, r1, waits, same, none_sent, linked, lives) = clicked_run in
    let (p, e, _, _, _, _, _) =
      round_delivers os s1.parent click [] (rw same first-IsSound.steady) refl refl refl in
    let r2 : Reach qt (started first) (record s1 { parent = p; to_controller = [] }) =
      later r1 (executes os click [] [] p waits refl refl refl e) in
    let (n, en, news) = (Reach-IsSound qt first-IsSound r2).news in
    let (m, sends, _) =
      display_lem established net p.force en (omega (arith, news.known)) news.fits in
    let r3 = later r2 (reports net m data_size _ lives sends) in
    (
      _,
      later r3 (
          reads m [] (ready_read_slot m data_size s1.window) [] linked
            (ap (λ (l : List Mem). l ++ (m ∷ [])) none_sent) refl),
    )
