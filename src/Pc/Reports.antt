-- ===== src/Pc/Reports.antt =====
-- The reports of VirtualForce_linux/controller.c on the window of SimForce_Qt/widget.cpp.
use virtual_force.Prelude.{◌<◌, ◌≡◌, refl, sym, arith, some, List, [], ◌∷◌, ◌++◌}
use virtual_force.Memory.{Mem}
use virtual_force.Wire.{load_data, data_size}
use virtual_force.Wire.RoundTrip.{Fits}
use virtual_force.Force.Regions.{ForceMonitor, Interface}
use virtual_force.Network.{Net, established}
use virtual_force.Network.Sending.{Sent}
use virtual_force.Controller.{controller_display_res}
use virtual_force.Controller.Report.{report, report-head, report-known, taken, display_lem}
use virtual_force.Pc.Latest.{latest, KnownStates, Shows, run-Shows, is_report, ready_read-rcv_msg}
use virtual_force.Pc.Runs.{handle_all-step}
use virtual_force.Pc.Widget.{
  Qt, Widget, SocketCall, Event, timeout, ready_read, handle, handle_all, ready_read_slot,
}

-- Bytes that hold what the child reports are a report to the window, and it keeps them.
report_kept :
    (m : Mem) (r : ForceMonitor) (w : Widget)
    → load_data m ≡ report r
    → (ready_read_slot m data_size w).rcv_msg ≡ report r
unfolding is_report
report_kept m r w e = rw (ready_read-rcv_msg m data_size w, e, report-head r) refl

-- From the regions to the screen: when the child is connected, the pointer of the monitor region is
-- set, its state is one of the six and its numbers fit in their fields, then the child sends 56 bytes
-- and marks the news as taken; a window that reads these 56 bytes at once goes on through any events
-- without an unknown state, and the next timeout shows the last report: what the region said, which is
-- the state 0 and zeros if it had no news, unless a later report came.
pub report_shown :
    (qt : Qt) (net : Net) (s : Interface) {r : ForceMonitor} (es : List Event) (w : Widget)
    → s.monitor_info ≡ some r
    → r.force_state < 6
    → Fits 8 r.force_theta
    → KnownStates es
    → (m : Mem) × (controller_display_res established net s
        ≡ some (Sent.sent m data_size, record s { monitor_info = some (taken r) }))
      × (w' : Widget) × (calls : List SocketCall) × (handle_all qt
            (ready_read m data_size ∷ es ++ (timeout ∷ []))
            w
          ≡ some (w', calls))
      × Shows qt (latest es (report r)) w'
unfolding handle
report_shown qt net s {r} es w e h f k =
    let (m, sends, loads) = display_lem established net s e (omega (arith, h)) f in
    let kept = report_kept m r w loads in
    let w1 = ready_read_slot m data_size w in
    let (w', calls, e2, shows) = run-Shows qt es w1 (rw kept (report-known r h)) k in
    (
      m,
      sends,
      w',
      calls,
      handle_all-step qt (ready_read m data_size) (es ++ (timeout ∷ [])) w refl e2,
      rw (sym kept) shows,
    )
