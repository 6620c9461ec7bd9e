-- ===== src/Mmap.antt =====
-- VirtualForce_linux/mmap_comm.c: the three pages of the force core that the controller maps, and
-- `Servo_Force_Comm_Init` of force_interface.c, which takes its pointers from there. What `open`
-- and `mmap` return is a parameter; a pointer is a number, `none` for NULL.
pub mod Ready
use virtual_force.Prelude.{ℕ, Bool, List, [], ◌∷◌, Option, none, some, if◌then◌else◌}
use virtual_force.Force.Regions.{
  ServoCoreProcessCall, ParaForceInfo, ForceInstructionInfo, ForceCoreState, ForceBackInfo,
  ForceMonitor, ForceVirtualCmd, Interface,
}

-- `MMAP_COMM_PTR_t`
pub record MmapComm : Type 0 where
  pub comm_ptr : Option ℕ
  pub para_ptr : Option ℕ
  pub cmd_ptr : Option ℕ
  pub cmd_bak_ptr : Option ℕ
  pub ins_ptr : Option ℕ
  pub state_ptr : Option ℕ
  pub res_ptr : Option ℕ
  pub monitor_ptr : Option ℕ
  pub virtual_ptr : Option ℕ

-- the static `mmap_addr` at the start
abbrev pub no_pages : MmapComm
no_pages = record {
  comm_ptr = none;
  para_ptr = none;
  cmd_ptr = none;
  cmd_bak_ptr = none;
  ins_ptr = none;
  state_ptr = none;
  res_ptr = none;
  monitor_ptr = none;
  virtual_ptr = none;
}

-- the physical addresses of force_interface.h
abbrev pub servo_cmd_addr : ℕ
servo_cmd_addr = 0x3b001000

abbrev pub force_monitor : ℕ
force_monitor = 0x3b310000

abbrev pub force_given_vir : ℕ
force_given_vir = 0x3b320000

-- `exit(0)` with the pages that were unmapped before it, or the pages.
pub data Mapped : Type 0 where
  exits : List ℕ → Mapped
  mapped : MmapComm → Mapped

-- `opened`: whether /dev/mem could be opened. `mmap` maps the page at a physical address; `none` is
-- `(void *)-1`.
unfoldable pub mmap_init : Bool → (ℕ → Option ℕ) → Mapped
mmap_init opened mmap =
    if opened
    then elim (mmap servo_cmd_addr) [
      | none ↦ exits []
      | some cmd ↦ elim (mmap force_monitor) [
        | none ↦ exits (cmd ∷ [])
        | some monitor ↦ elim (mmap force_given_vir) [
          | none ↦ exits (cmd ∷ monitor ∷ [])
          | some virtual ↦ mapped (record no_pages {
            cmd_ptr = some cmd;
            monitor_ptr = some monitor;
            virtual_ptr = some virtual;
          })
        ]
      ]
    ]
    else exits []

-- `mmap_close`: the pointers that are unmapped, in order.
unfoldable pub mmap_close : MmapComm → List (Option ℕ)
mmap_close m = m.cmd_ptr ∷ m.monitor_ptr ∷ m.virtual_ptr ∷ []

-- What lies behind a pointer, read as each of the types that the code casts it to.
pub record Contents : Type 0 where
  pub words : ℕ → ℕ → ℕ
  pub service : ℕ → ServoCoreProcessCall
  pub para : ℕ → ParaForceInfo
  pub instruct : ℕ → ForceInstructionInfo
  pub core_state : ℕ → ForceCoreState
  pub back : ℕ → ForceBackInfo
  pub monitor : ℕ → ForceMonitor
  pub virtual : ℕ → ForceVirtualCmd

abbrev pub behind {ℓ} : {A : Type ℓ} → (ℕ → A) → Option ℕ → Option A
behind view none = none
behind view (some p) = some (view p)

-- `Servo_Force_Comm_Init`
unfoldable pub servo_force_comm_init : MmapComm → Contents → Interface
servo_force_comm_init m c = record {
  comm_info = behind c.words m.comm_ptr;
  service_info = behind c.service m.cmd_ptr;
  para_info = behind c.para m.para_ptr;
  instruct_info = behind c.instruct m.ins_ptr;
  state_info = behind c.core_state m.state_ptr;
  back_info = behind c.back m.res_ptr;
  monitor_info = behind c.monitor m.monitor_ptr;
  virtual_info = behind c.virtual m.virtual_ptr;
  downloads = 0;
}
