-- ===== src/Layout/Casts.antt =====
-- The casts of the messages of the socket, as Wire has them, against the layout of the structs on either
-- machine.
use virtual_force.Prelude.{ℕ, ◌≡◌, refl, inl, inr, List, [], ◌∷◌}
use virtual_force.Memory.{Mem}
use virtual_force.Wire.{
  Axes, PcCommCmd, PcCommData, load_cmd, load_data, load_axes, cmd_size, data_size,
}
use virtual_force.Layout.{
  IsDoubleAlign, read_fields, struct_size, pc_comm_data, pc_comm_cmd, force_comm_rcv,
  force_comm_send, read_field, size_of, align_of,
}

abbrev pub axes_numbers : Axes → List ℕ
axes_numbers a = a.axis_0 ∷ a.axis_1 ∷ a.axis_2 ∷ a.axis_3 ∷ a.axis_4 ∷ a.axis_5 ∷ []

abbrev pub cmd_numbers : PcCommCmd → List ℕ
cmd_numbers c = c.cmd ∷ c.rsv ∷ axes_numbers c.params

abbrev pub data_numbers : PcCommData → List ℕ
data_numbers d = d.head ∷ d.force_state ∷ axes_numbers d.force_theta

messages_read :
    (al : ℕ) (m : Mem)
    → IsDoubleAlign al
    → (read_fields al pc_comm_cmd m 0 ≡ cmd_numbers (load_cmd m))
      × (read_fields al pc_comm_data m 0 ≡ data_numbers (load_data m))
      × (struct_size al pc_comm_cmd ≡ cmd_size)
      × (struct_size al pc_comm_data ≡ data_size)
unfolding read_fields struct_size load_cmd load_data read_field size_of align_of load_axes
messages_read al m (inl e) = rw e (refl, refl, refl, refl)
messages_read al m (inr e) = rw e (refl, refl, refl, refl)

-- The two programs agree on their messages: whether the machine of the PC aligns a `double` to 4 or to 8
-- bytes, and that of the controller as well, the bytes of a message read as its struct on the one are the
-- same numbers as on the other, namely those that `load_cmd` and `load_data` read, and both structs have
-- the size of the message, 32 or 56.
pub messages_agree :
    (pc controller : ℕ) (m : Mem)
    → IsDoubleAlign pc
    → IsDoubleAlign controller
    → (read_fields pc force_comm_send m 0 ≡ cmd_numbers (load_cmd m))
      × (read_fields controller pc_comm_cmd m 0 ≡ cmd_numbers (load_cmd m))
      × (read_fields pc force_comm_rcv m 0 ≡ data_numbers (load_data m))
      × (read_fields controller pc_comm_data m 0 ≡ data_numbers (load_data m))
      × (struct_size pc force_comm_send ≡ cmd_size)
      × (struct_size controller pc_comm_cmd ≡ cmd_size)
      × (struct_size pc force_comm_rcv ≡ data_size)
      × (struct_size controller pc_comm_data ≡ data_size)
messages_agree pc controller m p c =
    let (send, receive, send_size, receive_size) = messages_read pc m p in
    let (cmd, received, a, b) = messages_read controller m c in
    (send, cmd, receive, received, send_size, a, receive_size, b)
