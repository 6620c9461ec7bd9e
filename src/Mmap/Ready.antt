-- ===== src/Mmap/Ready.antt =====
-- Which pointers of force_interface.c are set once mmap_comm.c has mapped the pages.
use virtual_force.Prelude.{ℕ, ◌≡◌, Bool, true, Option, none, some, arith, List, [], ◌∷◌, is_set}
use virtual_force.Force.Regions.{Interface}
use virtual_force.Mmap.{
  Mapped, exits, mapped, MmapComm, Contents, mmap_init, mmap_close, servo_force_comm_init,
  servo_cmd_addr, force_monitor, force_given_vir,
}

-- The three pointers that the running program uses are set.
pub record Ready (s : Interface) : Type 0 where
  pub service : is_set s.service_info ≡ true
  pub monitor : is_set s.monitor_info ≡ true
  pub virtual : is_set s.virtual_info ≡ true

-- After a successful `mmap_init`, `Servo_Force_Comm_Init` sets the pointers to the regions of
-- commands, news and forces and no other pointer: the handshake words, the parameters, the
-- instructions, the state and the results stay NULL.
pub init-Ready :
    (opened : Bool) (mmap : ℕ → Option ℕ) (c : Contents) {pages : MmapComm}
    → mmap_init opened mmap ≡ mapped pages
    → let s = servo_force_comm_init pages c in
      Ready s
      × (s.comm_info ≡ none)
      × (s.para_info ≡ none)
      × (s.instruct_info ≡ none)
      × (s.state_info ≡ none)
      × (s.back_info ≡ none)
unfolding mmap_init servo_force_comm_init
init-Ready opened mmap c {pages} e = ground arith

-- the pages that were mapped before the first failure
pub until_failure : List (Option ℕ) → List ℕ
until_failure [] = []
until_failure (none ∷ r) = []
until_failure (some p ∷ r) = p ∷ until_failure r

-- What each end of `mmap_init` does with the pages that these calls mapped, in order.
abbrev pub Releases : List (Option ℕ) → Mapped → Type 0
Releases tried (exits released) = released ≡ until_failure tried
Releases tried (mapped pages) = mmap_close pages ≡ tried

-- With /dev/mem open, no page leaks: a failed `mmap_init` has unmapped, before it exits, the pages
-- that it had mapped, in order; after a success `mmap_close` unmaps all three.
pub mmap_init-Releases :
    (mmap : ℕ → Option ℕ)
    → Releases
        (mmap servo_cmd_addr ∷ mmap force_monitor ∷ mmap force_given_vir ∷ [])
        (mmap_init true mmap)
unfolding mmap_init mmap_close until_failure
mmap_init-Releases mmap = ground arith
