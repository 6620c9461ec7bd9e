-- ===== src/System.antt =====
-- The whole program: the window of SimForce_Qt/widget.cpp, the parent and the child of
-- VirtualForce_linux/main.c, the force core, and what is under way on the socket between them. Each of
-- them takes its steps when it comes to it; a connection may end at any time, and a new one begin.
pub mod Sound
pub mod Keeps
pub mod Start
pub mod Run
pub mod Spec
pub mod Stands
pub mod Events
pub mod Refines
pub mod Settles
pub mod Calm
use virtual_force.Prelude.{
  ℕ, ◌<◌, ◌≡◌, ◌≢◌, Bool, true, false, Option, none, some, List, [], ◌∷◌, ◌++◌, changed,
}
use virtual_force.Memory.{Mem}
use virtual_force.Wire.{PcCommData, data_size}
use virtual_force.Wire.RoundTrip.{Fits}
use virtual_force.Force.Regions.{ServoCoreProcessCall, ForceVirtualCmd, ForceMonitor, Interface}
use virtual_force.Network.{Net, Fread, Receive, Fork, Call, established, client_buff_size}
use virtual_force.Network.Sending.{Sent}
use virtual_force.Controller.{controller_display_res}
use virtual_force.Controller.Report.{report}
use virtual_force.Main.{Parent, running, round}
use virtual_force.Main.Commands.{arrived}
use virtual_force.Pc.Widget.{
  Qt, Form, Button, Widget, SocketCall, Event, timeout, ready_read, connected, disconnected,
  pressed, connect_clicked, disconnect_clicked, handle,
}
use virtual_force.Pc.Messages.{arriving}
use virtual_force.Pc.Latest.{is_report}

-- The socket of the window: without a connection; with one that is being made, or that the parent has not
-- accepted yet; or with the one that the parent has accepted. In the first case Qt drops what is
-- written, in the second it waits.
pub data Link : Type 0 where
  down waiting up : Link

-- `queued` are the commands that wait for the parent to accept the connection, `to_controller` those on
-- the one it has accepted; of these and of the reports those that were sent and not yet read. The regions of the force core are those of
-- the parent: its child has the same pages.
pub record System : Type 0 where
  pub window : Widget
  pub link : Link
  pub queued : List Fread
  pub to_controller : List Fread
  pub parent : Parent
  pub child_runs : Bool
  pub to_window : List Mem

-- The events other than bytes that may come: `connected` with a connection only, and the state that a
-- click on `disconnect` finds is that of the socket, unless the connection is still being made.
abbrev pub may_come : Link → Event → Bool
may_come l timeout = true
may_come l (ready_read m n) = false
may_come Link.down connected = false
may_come Link.waiting connected = true
may_come Link.up connected = true
may_come l disconnected = true
may_come l (pressed f b) = true
may_come l connect_clicked = true
may_come Link.down (disconnect_clicked true) = false
may_come Link.down (disconnect_clicked false) = true
may_come Link.waiting (disconnect_clicked c) = true
may_come Link.up (disconnect_clicked true) = true
may_come Link.up (disconnect_clicked false) = false

-- the connection after an event
abbrev pub link_after : Link → Event → Link
link_after l disconnected = Link.down
link_after l (disconnect_clicked true) = Link.down
link_after l (disconnect_clicked false) = l
link_after Link.down connect_clicked = Link.waiting
link_after Link.waiting connect_clicked = Link.waiting
link_after Link.up connect_clicked = Link.up
link_after l timeout = l
link_after l (ready_read m n) = l
link_after l connected = l
link_after l (pressed f b) = l

-- What becomes of what is written: at once on its way to the parent, and waiting. A connection that
-- ends before the parent accepts it loses what waits.
abbrev pub on_its_way : {A : Type 0} → Link → List A → List A
on_its_way Link.down l = []
on_its_way Link.waiting l = []
on_its_way Link.up l = l

abbrev pub waits : {A : Type 0} → Link → List A → List A
waits Link.down l = []
waits Link.waiting l = l
waits Link.up l = []

abbrev pub queue_after : {A : Type 0} → Event → List A → List A
queue_after disconnected l = []
queue_after (disconnect_clicked true) l = []
queue_after (disconnect_clicked false) l = l
queue_after connect_clicked l = l
queue_after timeout l = l
queue_after (ready_read m n) l = l
queue_after connected l = l
queue_after (pressed f b) l = l

abbrev pub forks : Fork → Bool
forks Fork.child = false
forks (Fork.parent k) = true
forks Fork.fork_error = false

-- News that the force core may write: one of the six states, and numbers of 64 bits.
pub record IsNews (r : ForceMonitor) : Type 0 where
  pub known : r.force_state < 6
  pub fits : Fits 8 r.force_theta

abbrev pub with_force_regions :
    (ServoCoreProcessCall → ServoCoreProcessCall)
    → (ForceVirtualCmd → ForceVirtualCmd)
    → (ForceMonitor → ForceMonitor)
    → Interface
    → Interface
with_force_regions f g k s = record s {
  service_info = changed f s.service_info;
  virtual_info = changed g s.virtual_info;
  monitor_info = changed k s.monitor_info;
}

-- A step: the window handles an event of its user, of its timer or of its connection; a connection that
-- is being made fails; the parent reads the command in front at once and does its round; the child
-- reports, or ends with the connection, after it has marked the news as taken; the window reads the report in front, or
-- bytes that it takes for none, a part of a report or several at once; the parent does a round in which
-- no command arrives, as at the end of the stream; the parent finds its connection ended and does a
-- round in which it accepts the one that waits, where all that was under way is lost; the force core
-- changes its regions. A round in which the parent waits or ends is no step.
pub data Step (qt : Qt) (s : System) : System → Type 0 where
  user :
      (e : Event) (w : Widget) (calls : List SocketCall)
      → may_come s.link e ≡ true
      → handle qt e s.window ≡ some (w, calls)
      → Step qt s (record s {
        window = w;
        link = link_after s.link e;
        queued = queue_after e (s.queued ++ waits s.link (arriving calls));
        to_controller = s.to_controller ++ on_its_way s.link (arriving calls);
      })
  refused : s.link ≡ Link.waiting → Step qt s (record s { link = Link.down; queued = [] })
  executes :
      (os : Receive) (r : Fread) (rs rest : List Fread) (p : Parent)
      → s.to_controller ≡ r ∷ rs
      → os.tcpi_state ≡ established
      → os.reads ≡ r ∷ rest
      → r.count ≡ client_buff_size
      → round os s.parent ≡ running p
      → Step qt s (record s { parent = p; to_controller = rs })
  reports :
      (net : Net) (m : Mem) (n : ℕ) (f : Interface)
      → s.child_runs ≡ true
      → controller_display_res established net s.parent.force ≡ some (Sent.sent m n, f)
      → Step qt s (record s {
        parent = record (s.parent) { force = f };
        to_window = s.to_window ++ (m ∷ []);
      })
  child_ends :
      (tcpi_state : ℕ) (net : Net) (c : Call) (f : Interface)
      → s.child_runs ≡ true
      → tcpi_state ≢ established
      → controller_display_res tcpi_state net s.parent.force ≡ some (Sent.exits c, f)
      → Step qt s (record s { parent = record (s.parent) { force = f }; child_runs = false })
  reads :
      (m : Mem) (ms : List Mem) (w : Widget) (calls : List SocketCall)
      → s.link ≡ Link.up
      → s.to_window ≡ m ∷ ms
      → handle qt (ready_read m data_size) s.window ≡ some (w, calls)
      → Step qt s (record s { window = w; to_window = ms })
  reads_none :
      (m : Mem) (n : ℕ) (dropped ms : List Mem) (w : Widget) (calls : List SocketCall)
      → s.link ≡ Link.up
      → is_report m n ≡ false
      → s.to_window ≡ dropped ++ ms
      → handle qt (ready_read m n) s.window ≡ some (w, calls)
      → Step qt s (record s { window = w; to_window = ms })
  idles :
      (os : Receive) (p : Parent)
      → arrived os ≡ []
      → os.tcpi_state ≡ established
      → round os s.parent ≡ running p
      → Step qt s (record s { parent = p })
  reconnects :
      (os : Receive) (p : Parent)
      → s.link ≡ Link.waiting
      → os.tcpi_state ≢ established
      → round os s.parent ≡ running p
      → Step qt s (record s {
        parent = p;
        link = Link.up;
        queued = [];
        to_controller = s.queued;
        child_runs = forks os.fork;
        to_window = [];
      })
  core :
      (f : ServoCoreProcessCall → ServoCoreProcessCall) (g : ForceVirtualCmd → ForceVirtualCmd)
      (k : ForceMonitor → ForceMonitor)
      → ((r : ForceMonitor) → IsNews r → IsNews (k r))
      → Step qt s (record s {
        parent = record (s.parent) { force = with_force_regions f g k s.parent.force };
      })

pub data Reach (qt : Qt) (s0 : System) : System → Type 0 where
  start : Reach qt s0 s0
  later : {s t : System} → Reach qt s0 s → Step qt s t → Reach qt s0 t
