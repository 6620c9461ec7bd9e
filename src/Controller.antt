-- ===== src/Controller.antt =====
-- VirtualForce_linux/controller.c: what the parent does with a received command, and what the child
-- reports to the PC.
pub mod Dispatch
pub mod Report
pub mod Trials
pub mod Priority
use virtual_force.Prelude.{ℕ, ◌==◌, if◌then◌else◌, Option, none, some}
use virtual_force.Memory.{Mem, zeroed}
use virtual_force.Buffer.{is_buff_empty, pull_circle_buff_item}
use virtual_force.Wire.{PcCommCmd, PcCommData, load_cmd, store_data, data_size}
use virtual_force.Force.Regions.{Interface, Access}
use virtual_force.Force.Service.{
  cmd_reset_fault_call, cmd_idle_call, cmd_working_call, cmd_set_fault_call,
}
use virtual_force.Force.Exchange.{virtual_download, monitor_upload, no_force}
use virtual_force.Network.{Net}
use virtual_force.Network.Sending.{Sent, network_set}

-- `FORCE_CMD_e`
abbrev pub reset_fault : ℕ
reset_fault = 11

abbrev pub idle : ℕ
idle = 12

abbrev pub working : ℕ
working = 13

abbrev pub set_fault : ℕ
set_fault = 14

abbrev pub force_give_start : ℕ
force_give_start = 15

abbrev pub force_give_stop : ℕ
force_give_stop = 16

-- the `switch` of `controller_msg_parase`
unfoldable pub dispatch : PcCommCmd → Interface → Option Interface
dispatch cmd s =
    if cmd.cmd == reset_fault
    then cmd_reset_fault_call s
    else if cmd.cmd == idle
    then cmd_idle_call s
    else if cmd.cmd == working
    then cmd_working_call s
    else if cmd.cmd == set_fault
    then cmd_set_fault_call s
    else if cmd.cmd == force_give_start
    then virtual_download cmd s
    else if cmd.cmd == force_give_stop
    then virtual_download cmd s
    else some s

-- One call: the network state without the command that it took, and the interface after it; `none`
-- is a fault.
unfoldable pub controller_msg_parase : Net → Interface → Option (Net × Interface)
controller_msg_parase net s =
    if is_buff_empty net.local_buff_info
    then some (net, s)
    else (let r = pull_circle_buff_item net.local_buff_info net.local_buff zeroed in
        let net' = record net { local_buff_info = r.info } in
        elim r.result [
          | none ↦ some (net', s)
          | some _ ↦ elim (dispatch (load_cmd r.out) s) [ none ↦ none | some s' ↦ some (net', s') ]
        ])

-- the report with its head only: the buffer is zeroed before
abbrev pub blank_report : PcCommData
blank_report = record { head = 0x11181118; force_state = 0; force_theta = no_force }

-- One call: what is sent to the PC, and the interface after it.
unfoldable pub controller_display_res : ℕ → Net → Interface → Access Sent
controller_display_res tcpi_state net s = elim (monitor_upload blank_report s) [
  | none ↦ none
  | some (report, s') ↦ some (network_set tcpi_state net (store_data report) data_size, s')
]
