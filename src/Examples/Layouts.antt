-- ===== src/Examples/Layouts.antt =====
-- The theorems of Layout at the alignments of two machines, and runs.
use virtual_force.Prelude.{ℕ, ◌+◌, ◌-◌, ◌/◌, ◌%◌, ◌≤◌, ◌≡◌, refl, inl, inr}
use virtual_force.Memory.{Mem}
use virtual_force.Wire.{load_cmd, load_data, cmd_size, data_size}
use virtual_force.Force.Params.{para_rounds}
use virtual_force.Mmap.{servo_cmd_addr}
use virtual_force.Layout.{
  read_fields, struct_size, pc_comm_data, pc_comm_cmd, force_comm_rcv, force_comm_send,
  servo_core_process_call, force_core_process_back, para_force_info, para_force_std_info, size_of,
  align_of,
}
use virtual_force.Layout.Casts.{cmd_numbers, data_numbers, messages_agree}
use virtual_force.Layout.Apart.{Region, IsIn, servo_cmd_back_addr, regions_apart}

-- bytes that count
abbrev counted : Mem
counted i = i % 256

messages_agree_example :
    (read_fields 4 force_comm_send counted 0 ≡ cmd_numbers (load_cmd counted))
    × (read_fields 8 pc_comm_cmd counted 0 ≡ cmd_numbers (load_cmd counted))
    × (read_fields 4 force_comm_rcv counted 0 ≡ data_numbers (load_data counted))
    × (read_fields 8 pc_comm_data counted 0 ≡ data_numbers (load_data counted))
    × (struct_size 4 force_comm_send ≡ cmd_size)
    × (struct_size 8 pc_comm_cmd ≡ cmd_size)
    × (struct_size 4 force_comm_rcv ≡ data_size)
    × (struct_size 8 pc_comm_data ≡ data_size)
messages_agree_example = messages_agree 4 8 counted (inl refl) (inr refl)

abbrev call : Region
call = record { address = servo_cmd_addr; fields = servo_core_process_call }

abbrev back : Region
back = record { address = servo_cmd_back_addr; fields = force_core_process_back }

-- the region of the answers starts where that of the commands ends
regions_apart_example :
    ((x : ℕ) → IsIn 8 x call → IsIn 8 x back → ◌≡◌ {A = ℕ} 1 2)
    × (call.address % 4096 + struct_size 8 call.fields ≤ 4096)
regions_apart_example = regions_apart 8 1 2 (inr refl) refl refl

ends_there : call.address + struct_size 8 call.fields ≡ back.address
unfolding struct_size size_of align_of
ends_there = refl

-- the size that a comment gives
para_size : struct_size 8 para_force_info ≡ 1024
unfolding struct_size size_of align_of
para_size = refl

-- the rounds of the loop of `Servo_Force_Comm_Set_Para`
para_std_rounds : (struct_size 8 para_force_std_info - 32) / 4 ≡ para_rounds
unfolding struct_size size_of align_of
para_std_rounds = refl
