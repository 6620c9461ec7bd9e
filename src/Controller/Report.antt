-- ===== src/Controller/Report.antt =====
-- What the child of controller.c reports to the PC.
use virtual_force.Prelude.{ℕ, ◌^◌, ◌<◌, ◌≡◌, arith, some, ◌==◌, if◌then◌else◌}
use virtual_force.Memory.{Mem}
use virtual_force.Wire.{PcCommData, load_data, store_data, data_size, magig_head}
use virtual_force.Wire.RoundTrip.{Fits, load_data-store_data}
use virtual_force.Force.Regions.{ForceMonitor, Interface}
use virtual_force.Force.Exchange.{monitor_upload, no_force}
use virtual_force.Network.{Net, close, established}
use virtual_force.Network.Sending.{Sent, network_set}
use virtual_force.Controller.{controller_display_res, blank_report}

-- The report that the state of the monitor region stands for: its news, or zeros if there is none.
pub report : ForceMonitor → PcCommData
report r =
    if r.valid == 1
    then record { head = magig_head; force_state = r.force_state; force_theta = r.force_theta }
    else record { head = magig_head; force_state = 0; force_theta = no_force }

-- The monitor region after a report: news is marked as taken.
pub taken : ForceMonitor → ForceMonitor
taken r = if r.valid == 1 then record r { valid = 0 } else r

pub taken-known : (r : ForceMonitor) → r.force_state < 6 → (taken r).force_state < 6
unfolding taken
taken-known r h = ground arith

pub taken-Fits : (r : ForceMonitor) → Fits 8 r.force_theta → Fits 8 (taken r).force_theta
unfolding taken
taken-Fits r h = ground arith

pub upload_lem :
    (s : Interface) {r : ForceMonitor}
    → s.monitor_info ≡ some r
    → monitor_upload blank_report s ≡ some (report r, record s { monitor_info = some (taken r) })
unfolding monitor_upload report taken
upload_lem s {r} e = ground arith

report-small : (r : ForceMonitor) → r.force_state < 2 ^ 32 → (report r).force_state < 2 ^ 32
unfolding report
report-small r h = ground arith

report-Fits : (r : ForceMonitor) → Fits 8 r.force_theta → Fits 8 (report r).force_theta
unfolding report
report-Fits r h = ground arith

pub report-known : (r : ForceMonitor) → r.force_state < 6 → (report r).force_state < 6
unfolding report
report-known r h = ground arith

pub report-head : (r : ForceMonitor) → (report r).head ≡ magig_head
unfolding report
report-head r = ground arith

-- One report, in every case, when the pointer is set and the numbers of the region fit in their
-- fields: connected, 56 bytes go to the PC, which reads the report of the monitor region from
-- them; disconnected, the process ends. Either way the region's news is marked as taken, and no
-- other region changes.
pub display_lem :
    (tcpi_state : ℕ) (net : Net) (s : Interface) {r : ForceMonitor}
    → s.monitor_info ≡ some r
    → r.force_state < 2 ^ 32
    → Fits 8 r.force_theta
    → (m : Mem) × (controller_display_res tcpi_state net s
        ≡ some (
          if tcpi_state == established then Sent.sent m data_size else Sent.exits (close net.fd),
          record s { monitor_info = some (taken r) },
        ))
      × (load_data m ≡ report r)
unfolding controller_display_res network_set
display_lem tcpi_state net s {r} e hs ht = (
  store_data (report r),
  rw (upload_lem s e, controller_display_res),
  load_data-store_data (report r) (omega (arith, report-head r)) (report-small r hs)
      (report-Fits r ht),
)
