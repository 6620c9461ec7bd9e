-- ===== src/Main/Sharing.antt =====
-- The parent and the child of main.c on the regions that they share, one call at a time: the parent
-- executes commands, the child reports, and the force core changes the regions in between, in any
-- way. The child is also the one of `network_rcv`, which runs the same loop.
pub mod Apart
pub mod Forces
use virtual_force.Prelude.{
  ℕ, Bool, true, false, Option, none, some, List, [], ◌∷◌, ◌++◌, if◌then◌else◌, changed,
}
use virtual_force.Memory.{Mem}
use virtual_force.Wire.{PcCommCmd}
use virtual_force.Force.Regions.{Interface, ServoCoreProcessCall, ForceVirtualCmd, ForceMonitor}
use virtual_force.Network.{Net}
use virtual_force.Network.Sending.{Sent}
use virtual_force.Controller.{dispatch, controller_display_res}

-- A turn of one of the three: the parent executes a command; the child makes a round of its loop
-- with the state of the connection at that time; the parent, on a new connection, puts a new child in
-- the place of the old one; the force core changes the regions for commands, or the region for news.
pub data Turn : Type 0 where
  executes : PcCommCmd → Turn
  reports : ℕ → Turn
  reconnects : Turn
  core_takes :
      (ServoCoreProcessCall → ServoCoreProcessCall) → (ForceVirtualCmd → ForceVirtualCmd) → Turn
  core_news : (ForceMonitor → ForceMonitor) → Turn

-- What is sent to the PC so far, whether the child has not ended, and the regions.
pub record Shared : Type 0 where
  pub sent_to_pc : List Mem
  pub child_runs : Bool
  pub force : Interface

unfoldable pub turn : Net → Turn → Shared → Option Shared
turn net (executes c) w = elim (dispatch c w.force) [
  | none ↦ none
  | some s ↦ some (record w { force = s })
]
turn net (reports tcpi_state) w =
    if w.child_runs
    then elim (controller_display_res tcpi_state net w.force) [
      | none ↦ none
      | some (end, s) ↦ elim end [
        | Sent.exits _ ↦ some (record w { child_runs = false; force = s })
        | Sent.sent m _ ↦ some (record w { sent_to_pc = w.sent_to_pc ++ m ∷ []; force = s })
      ]
    ]
    else some w
turn net reconnects w = some (record w { child_runs = true })
turn net (core_takes f g) w = some (record w {
  force = record (w.force) {
    service_info = changed f w.force.service_info;
    virtual_info = changed g w.force.virtual_info;
  };
})
turn net (core_news f) w =
    some (record w { force = record (w.force) { monitor_info = changed f w.force.monitor_info } })

-- turns, one after the other
unfoldable pub turns : Net → List Turn → Shared → Option Shared
turns net [] w = some w
turns net (t ∷ ts) w = elim (turn net t w) [ none ↦ none | some w' ↦ turns net ts w' ]
