-- ===== src/Examples/Inputs.antt =====
-- Concrete control blocks, commands, regions and system calls.
use virtual_force.Prelude.{ℕ, ◌+◌, true, false, Option, none, some, [], ◌∷◌}
use virtual_force.Memory.{Mem, zeroed}
use virtual_force.Buffer.{BufferInfo}
use virtual_force.Wire.{Axes, PcCommCmd, store_cmd}
use virtual_force.Force.Regions.{
  ParaForceInfo, ForceInstructionInfo, ForceCoreState, ForceBackInfo, ForceMonitor, ForceVirtualCmd,
  Interface,
}
use virtual_force.Force.Service.{no_call}
use virtual_force.Mmap.{Contents}
use virtual_force.Network.{Net, Sockets, Fread, Receive, Fork, process, forked, fresh_info}
use virtual_force.Main.{Boot, Parent}

-- byte `i` is `i + n`
abbrev pub counting : ℕ → Mem
counting n i = i + n

abbrev pub ring : ℕ → ℕ → ℕ → ℕ → BufferInfo
ring head tail element length = record {
  tail_index_offset = tail;
  head_index_offset = head;
  element_length = element;
  buff_length = length;
  safety_resevd = 0;
  semaphore = 1;
  write_lock = 0;
}

abbrev pub six : ℕ → Axes
six n = record {
  axis_0 = n;
  axis_1 = n + 1;
  axis_2 = n + 2;
  axis_3 = n + 3;
  axis_4 = n + 4;
  axis_5 = n + 5;
}

abbrev pub command : ℕ → PcCommCmd
command c = record { cmd = c; rsv = 0; params = six 100 }

abbrev pub monitor : ForceMonitor
monitor = record { valid = 1; force_state = 3; force_theta = six 7 }

abbrev pub virtual : ℕ → ForceVirtualCmd
virtual v = record { valid = v; force = six 1 }

abbrev pub para : ParaForceInfo
para = record {
  update_flag = 0;
  rsv_data = 0;
  posture = λ k. 0;
  para_data = λ k. k;
  para_rsv = λ k. 0;
}

abbrev pub instruction : ℕ → ForceInstructionInfo
instruction v = record {
  valid = v;
  not_used = 0;
  in_pos_given = six 1;
  in_vel_given = six 2;
  in_acc_given = six 3;
  in_force_given = six 4;
  in_pos_back = six 5;
  in_vel_back = six 6;
  in_acc_back = six 7;
  in_force_back = six 8;
}

abbrev pub back : ℕ → ForceBackInfo
back v = record { valid = v; theta = six 1; force = six 2; dignose_var = λ i j. 0; rsv_data = 0 }

abbrev pub core_state : ForceCoreState
core_state = record {
  valid = 0;
  err_code = 0;
  err_history = λ k. 0;
  state = 1;
  mode = 0;
  sub_mode = 0;
  rsv_data = 0;
}

-- all pointers set
abbrev pub whole : Interface
whole = record {
  comm_info = some (λ k. k);
  service_info = some no_call;
  para_info = some para;
  instruct_info = some (instruction 0);
  state_info = some core_state;
  back_info = some (back 1);
  monitor_info = some monitor;
  virtual_info = some (virtual 0);
  downloads = 0;
}

abbrev pub contents : Contents
contents = record {
  words = λ p k. k;
  service = λ p. no_call;
  para = λ p. para;
  instruct = λ p. instruction 0;
  core_state = λ p. core_state;
  back = λ p. back 0;
  monitor = λ p. monitor;
  virtual = λ p. virtual 0;
}

abbrev pub sockets : Option ℕ → Sockets
sockets s = record {
  socket = s;
  setsockopt = λ fd. elim fd [ none ↦ false | some k ↦ true ];
  bind = true;
  listen = true;
  accept = some 5;
  fdopen = λ fd. elim fd [ none ↦ false | some k ↦ true ];
}

abbrev pub start : Boot
start = record {
  opened = true;
  mmap = λ a. some (a + 1);
  contents = contents;
  sockets = sockets (some 4);
  fork = Fork.parent 77;
}

-- a read of a whole command
abbrev pub read_of : PcCommCmd → Fread
read_of c = record { data_read = store_cmd c; count = 32; error = none }

abbrev pub message : PcCommCmd → Receive
message c = record {
  tcpi_state = 1;
  reads = read_of c ∷ [];
  accept = none;
  fdopen = λ fd. false;
  fork = Fork.child;
}

-- a disconnection and a new connection
abbrev pub reconnect : Fork → Receive
reconnect f = record { tcpi_state = 8; reads = []; accept = some 9; fdopen = λ fd. true; fork = f }

abbrev pub net : Net
net = record { fd = some 5; sfd = some 4; local_buff_info = fresh_info; local_buff = zeroed }

abbrev pub parent : Parent
parent = record { pid_child = process 77; net = net; force = whole; calls = forked 77 ∷ [] }
