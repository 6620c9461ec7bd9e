-- ===== src/System/Settles.antt =====
-- How the whole program comes to rest when nobody disturbs it.
use Prim.Native.String.{String}
use virtual_force.Prelude.{List, [], ◌∷◌}
use virtual_force.Force.Regions.{ForceMonitor}
use virtual_force.Controller.Report.{report}
use virtual_force.Pc.Comm.{ForceCommRcv}
use virtual_force.Pc.Clicks.{effects}
use virtual_force.Pc.Widget.{Qt}
use virtual_force.System.{System}
use virtual_force.System.Spec.{Spec, axes_of}
use virtual_force.System.Stands.{Stands}

-- What the window holds when it has read all that waits.
unfoldable pub last_of : List ForceMonitor → ForceCommRcv → ForceCommRcv
last_of [] d = d
last_of (r ∷ rs) d = last_of rs (report r)

-- The specification at rest: all clicks that asked are done, all reports are read, and the last is shown under the
-- given name of its state.
abbrev pub settled : Qt → Spec → String → Spec
settled qt a name = record {
  link = a.link;
  queued = a.queued;
  asked = [];
  regions = effects qt a.asked a.regions;
  news = [];
  held = last_of a.news a.held;
  state_text = name;
  axes_texts = axes_of qt (last_of a.news a.held);
}
