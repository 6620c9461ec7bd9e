-- ===== src/Examples/Regions.antt =====
-- The theorems on the regions of force_interface.c and on the pages of mmap_comm.c, and runs.
use virtual_force.Prelude.{
  ℕ, ◌+◌, ◌*◌, ◌%◌, ◌^◌, ◌≡◌, ◌≢◌, refl, arith, true, Option, none, some, List, [], ◌∷◌, ◌==◌,
  if◌then◌else◌,
}
use virtual_force.Memory.{Mem}
use virtual_force.Wire.{load_data, data_size}
use virtual_force.Force.Regions.{ServoCoreProcessCall, ParaForceInfo, Interface}
use virtual_force.Force.Codes.{servo_cmd, cmd_switch_mode, theta_back, out_theta}
use virtual_force.Force.Codes.Told.{told, servo_cmds}
use virtual_force.Force.Service.Calls.{
  ServiceCall, mode, dignose_cfg, perform_all, cmd_of, Says, RestIsZero, last_call_stands,
}
use virtual_force.Force.Params.{set_para}
use virtual_force.Force.Params.Loop.{set_para_lem}
use virtual_force.Force.Exchange.Mailbox.{
  Turn, sets, gets, core_takes, core_gives, turns, Traffic, no_traffic, IsOnce, mailboxes_in_order,
}
use virtual_force.Force.Handshake.{magic_bind_data, get_force_heart, get_state, read_word}
use virtual_force.Force.Handshake.Words.{seen}
use virtual_force.Force.Handshake.Calls.{
  Call, request, bind, heart, calls, hearts, own_hearts_counted,
}
use virtual_force.Mmap.{
  exits, MmapComm, no_pages, mmap_init, servo_cmd_addr, force_monitor, force_given_vir,
}
use virtual_force.Mmap.Ready.{Releases, mmap_init-Releases}
use virtual_force.Network.{close}
use virtual_force.Network.Sending.{Sent}
use virtual_force.Controller.{dispatch, controller_display_res}
use virtual_force.Controller.Dispatch.{service_after, virtual_after, downloads_after, dispatch_lem}
use virtual_force.Controller.Report.{report, taken, display_lem}
use virtual_force.Examples.Para.{std_para}
use virtual_force.Examples.Inputs.{command, monitor, virtual, para, instruction, back, whole, net}

-- a switch of mode, and a configuration of the diagnosis over it
abbrev diagnosis : ServiceCall
diagnosis = dignose_cfg (λ k. if k == 0 then theta_back else out_theta)

last_call_stands_example :
    (r : ServoCoreProcessCall) × (perform_all (mode 2 1 ∷ diagnosis ∷ []) whole
      ≡ some (record whole { service_info = some r }))
    × (told servo_cmd servo_cmds r.cmd ≡ some cmd_switch_mode)
    × Says r diagnosis
    × RestIsZero r
unfolding cmd_of
last_call_stands_example = last_call_stands (mode 2 1 ∷ []) diagnosis whole refl

-- the number at an address is the address
abbrev peek : ℕ → Option ℕ
peek a = some a

abbrev scaled : ℕ → ℕ
scaled w = w + 1

set_para_lem_example :
    (q : ParaForceInfo) × (set_para peek scaled std_para whole
      ≡ some (record whole { para_info = some q }))
    × (q.update_flag ≡ 1)
    × (q.para_data 0 ≡ scaled ((0x1000 + 4 * 81) % 2 ^ 64))
    × ((k : ℕ) → k ≢ 0 → q.para_data k ≡ para.para_data k)
    × (q.posture 0 ≡ 1)
    × (q.posture 1 ≡ 2)
    × (q.posture 2 ≡ 3)
    × (q.posture 3 ≡ 0)
set_para_lem_example =
    set_para_lem peek scaled std_para whole (λ k. (0x1000 + 4 * k) % 2 ^ 64) refl (λ k le. refl)

abbrev empty_regions : Interface
empty_regions = record whole { back_info = some (back 0) }

-- an instruction is refused, the first one is taken, and a result is given and got
abbrev exchange : List Turn
exchange =
    sets (instruction 5)
    ∷ sets (instruction 6)
    ∷ core_takes
    ∷ core_gives (back 0)
    ∷ gets (back 7)
    ∷ []

mailboxes_in_order_example :
    (t : Traffic) × (turns exchange (no_traffic empty_regions) ≡ some t) × IsOnce t
mailboxes_in_order_example = mailboxes_in_order exchange empty_regions refl refl refl refl

abbrev answers : List ℕ
answers = 0 ∷ 7 ∷ magic_bind_data ∷ 3 ∷ []

answers-seen : seen magic_bind_data answers ≡ true
unfolding seen
answers-seen = refl

abbrev greeting : List Call
greeting = request ∷ heart ∷ bind answers ∷ heart ∷ []

own_hearts_counted_example :
    (s' : Interface) × (calls greeting whole ≡ some s')
    × (get_force_heart s' ≡ some ((2 + hearts greeting) % 2 ^ 32, s'))
    × (get_state s' ≡ some (4, s'))
    × (read_word 1 s' ≡ some (1, s'))
own_hearts_counted_example = own_hearts_counted greeting whole refl (answers-seen, tt) (omega arith)

abbrev one_page_missing : ℕ → Option ℕ
one_page_missing a = if a == force_given_vir then none else some a

mmap_init-Releases_example :
    Releases
      (one_page_missing servo_cmd_addr
        ∷ one_page_missing force_monitor
        ∷ one_page_missing force_given_vir
        ∷ [])
      (mmap_init true one_page_missing)
mmap_init-Releases_example = mmap_init-Releases one_page_missing

one_page_missing_run : mmap_init true one_page_missing ≡ exits (servo_cmd_addr ∷ force_monitor ∷ [])
unfolding mmap_init
one_page_missing_run = refl

abbrev three_pages : MmapComm
three_pages = record no_pages {
  cmd_ptr = some servo_cmd_addr;
  monitor_ptr = some force_monitor;
  virtual_ptr = some force_given_vir;
}

dispatch_lem_example :
    dispatch (command 15) whole
    ≡ some (record whole {
      service_info = some (
          service_after (command 15) (record {
            cmd = 0;
            param1 = 0;
            param2 = 0;
            param3 = 0;
            param4 = 0;
            param5 = 0;
            param6 = 0;
            param7 = 0;
          }));
      virtual_info = some (virtual_after (command 15) (virtual 0));
      downloads = downloads_after (command 15) (virtual 0) 0;
    })
dispatch_lem_example = dispatch_lem (command 15) whole refl refl

display_lem_example :
    (m : Mem) × (controller_display_res 1 net whole
      ≡ some (
        if 1 == 1 then Sent.sent m data_size else Sent.exits (close net.fd),
        record whole { monitor_info = some (taken monitor) },
      ))
    × (load_data m ≡ report monitor)
display_lem_example = display_lem 1 net whole refl (omega arith) (omega arith)
