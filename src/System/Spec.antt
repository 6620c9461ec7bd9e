-- ===== src/System/Spec.antt =====
-- What the whole program of SimForce_Qt and VirtualForce_linux is to do, without sockets, rings, bytes and
-- processes: clicks that wait to be done, or for a connection, the regions of the force core, what they said and the window
-- has not read yet, and the window.
use Prim.Native.String.{String}
use virtual_force.Prelude.{◌≡◌, some, List, [], ◌∷◌, ◌++◌}
use virtual_force.Force.Regions.{ServoCoreProcessCall, ForceVirtualCmd, ForceMonitor, Interface}
use virtual_force.Controller.Report.{report, taken}
use virtual_force.Pc.Comm.{ForceCommRcv, state_name}
use virtual_force.Pc.Clicks.{effect}
use virtual_force.Pc.Widget.{Qt, Form, Button, Texts, no_report, no_texts}
use virtual_force.System.{Link, IsNews, with_force_regions}

pub record Spec : Type 0 where
  pub link : Link
  pub queued : List (Form × Button)
  pub asked : List (Form × Button)
  pub regions : Interface
  pub news : List ForceMonitor
  pub held : ForceCommRcv
  pub state_text : String
  pub axes_texts : Texts

-- the six numbers of a report, as texts
abbrev pub axes_of : Qt → ForceCommRcv → Texts
axes_of qt d = record {
  text_0 = qt.number d.force_theta.axis_0;
  text_1 = qt.number d.force_theta.axis_1;
  text_2 = qt.number d.force_theta.axis_2;
  text_3 = qt.number d.force_theta.axis_3;
  text_4 = qt.number d.force_theta.axis_4;
  text_5 = qt.number d.force_theta.axis_5;
}

-- An act: a connection is wanted, or ends; a click asks, at once with a connection, or waits for one;
-- without any it is no act; the first click that asked is done; the region
-- for news is reported, or not, and marked as taken; the window holds the first report that waits, or
-- loses some; it shows what it holds; a new connection loses what is under way and takes over what
-- waited for it; the force core changes its regions.
pub data Act (qt : Qt) (a : Spec) : Spec → Type 0 where
  wants : a.link ≡ Link.down → Act qt a (record a { link = Link.waiting })
  ends : Act qt a (record a { link = Link.down; queued = [] })
  asks :
      (c : Form × Button) → a.link ≡ Link.up → Act qt a (record a { asked = a.asked ++ (c ∷ []) })
  waits_for :
      (c : Form × Button)
      → a.link ≡ Link.waiting
      → Act qt a (record a { queued = a.queued ++ (c ∷ []) })
  does :
      (c : Form × Button) (cs : List (Form × Button))
      → a.asked ≡ c ∷ cs
      → Act qt a (record a { asked = cs; regions = effect qt c a.regions })
  keeps_quiet :
      (r : ForceMonitor)
      → a.regions.monitor_info ≡ some r
      → Act qt a (record a { regions = record (a.regions) { monitor_info = some (taken r) } })
  tells :
      (r : ForceMonitor)
      → a.regions.monitor_info ≡ some r
      → Act qt a (record a {
        regions = record (a.regions) { monitor_info = some (taken r) };
        news = a.news ++ (r ∷ []);
      })
  holds :
      (r : ForceMonitor) (rs : List ForceMonitor)
      → a.news ≡ r ∷ rs
      → Act qt a (record a { held = report r; news = rs })
  loses : (lost rs : List ForceMonitor) → a.news ≡ lost ++ rs → Act qt a (record a { news = rs })
  shows :
      (name : String)
      → state_name a.held.force_state ≡ some name
      → Act qt a (record a { state_text = name; axes_texts = axes_of qt a.held })
  renews :
      a.link ≡ Link.waiting
      → Act qt a (record a { link = Link.up; queued = []; asked = a.queued; news = [] })
  changes :
      (f : ServoCoreProcessCall → ServoCoreProcessCall) (g : ForceVirtualCmd → ForceVirtualCmd)
      (k : ForceMonitor → ForceMonitor)
      → ((r : ForceMonitor) → IsNews r → IsNews (k r))
      → Act qt a (record a { regions = with_force_regions f g k a.regions })

pub data Acts (qt : Qt) (a : Spec) : Spec → Type 0 where
  none_yet : Acts qt a a
  more : {b c : Spec} → Acts qt a b → Act qt b c → Acts qt a c

-- before any act: what the regions are at first, and the window as its constructor makes it
abbrev pub untouched : Interface → Spec
untouched s = record {
  link = Link.up;
  queued = [];
  asked = [];
  regions = s;
  news = [];
  held = no_report;
  state_text = "";
  axes_texts = no_texts;
}
