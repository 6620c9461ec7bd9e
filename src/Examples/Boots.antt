-- ===== src/Examples/Boots.antt =====
-- The theorems on the processes of main.c, from the start on, and runs.
use virtual_force.Prelude.{◌≡◌, refl, inl, some, List, [], ◌∷◌}
use virtual_force.Memory.{memcpy, zeroed}
use virtual_force.Buffer.{is_buff_empty, is_buff_full, push_circle_buff_item, pull_circle_buff_item}
use virtual_force.Buffer.Single.{moved}
use virtual_force.Wire.{load_cmd, store_cmd, load, load_axes, byte, axes_byte}
use virtual_force.Force.Service.{cmd_working_call, set_cmd, no_call, cmd_working}
use virtual_force.Network.Receiving.{with_command}
use virtual_force.Network.{
  network_init, network_client_connect, network_rcv, Fork, process, Net, read_data, read_loop, Call,
  kill, close, forked,
}
use virtual_force.Controller.{dispatch, controller_msg_parase}
use virtual_force.Main.{Parent, round, rounds, boot, running, sighandler, Process}
use virtual_force.Main.Children.{alive, sighandler_kills}
use virtual_force.Main.Commands.{execute_all}
use virtual_force.Main.Whole.{all_carried, main_executes_reads}
use virtual_force.Mmap.{MmapComm, Mapped, no_pages, mmap_init, servo_force_comm_init}
use virtual_force.Examples.Inputs.{net, start, contents, reconnect, command, message}

-- The pages, and the parent after a reconnection.
abbrev pub pages : MmapComm
pages = record no_pages {
  cmd_ptr = some 0x3b001001;
  monitor_ptr = some 0x3b310001;
  virtual_ptr = some 0x3b320001;
}

pages_mapped : mmap_init start.opened start.mmap ≡ Mapped.mapped pages
unfolding mmap_init
pages_mapped = refl

abbrev second : Parent
second = record {
  pid_child = process 78;
  net = record net { fd = some 9 };
  force = servo_force_comm_init pages contents;
  calls = forked 77 ∷ kill (process 77) ∷ close (some 5) ∷ forked 78 ∷ [];
}

second_reached : rounds (reconnect (Fork.parent 78) ∷ []) (boot start) ≡ running second
unfolding rounds round boot mmap_init network_init network_client_connect network_rcv
    controller_msg_parase is_buff_empty servo_force_comm_init
second_reached = refl

sighandler_kills_example :
    (calls : List Call) × ((sighandler pages second).1 ≡ Process.exited calls)
    × (alive [] calls ≡ [])
    × ((sighandler pages second).0 ≡ some 0x3b001001 ∷ some 0x3b310001 ∷ some 0x3b320001 ∷ [])
sighandler_kills_example =
    sighandler_kills start (reconnect (Fork.parent 78) ∷ []) pages_mapped second_reached

abbrev pub first : Parent
first = record {
  pid_child = process 77;
  net = net;
  force = servo_force_comm_init pages contents;
  calls = forked 77 ∷ [];
}

pub booted : boot start ≡ running first
unfolding boot mmap_init network_init network_client_connect servo_force_comm_init
booted = refl

-- the parent after a command that starts the core, and after a new connection
abbrev working_net : Net
working_net = with_command net (memcpy zeroed 0 (store_cmd (command 13)) 0 32)

abbrev third : Parent
third = record {
  pid_child = process 78;
  net = record working_net { fd = some 9; local_buff_info = moved net.local_buff_info };
  force = record (first.force) { service_info = some (record no_call { cmd = cmd_working }) };
  calls = forked 77 ∷ kill (process 77) ∷ close (some 5) ∷ forked 78 ∷ [];
}

third_reached :
    rounds (message (command 13) ∷ reconnect (Fork.parent 78) ∷ []) (boot start) ≡ running third
unfolding rounds round boot mmap_init network_init network_client_connect network_rcv
    controller_msg_parase is_buff_empty is_buff_full servo_force_comm_init read_data read_loop
    push_circle_buff_item pull_circle_buff_item dispatch load_cmd store_cmd load load_axes byte
    axes_byte cmd_working_call set_cmd
third_reached = refl

main_executes_reads_example :
    execute_all (all_carried (message (command 13) ∷ reconnect (Fork.parent 78) ∷ [])) first.force
    ≡ some third.force
main_executes_reads_example =
    main_executes_reads start (message (command 13) ∷ reconnect (Fork.parent 78) ∷ [])
      (inl refl, (tt, tt)) booted third_reached
