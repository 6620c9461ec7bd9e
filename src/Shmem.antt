-- ===== src/Shmem.antt =====
-- VirtualForce_linux/shmem_client.c: a ring in shared memory. What `shmget`, `shmat` and `shmdt`
-- return is an argument; `none` stands for -1. The segments are values that come in and go out.
pub mod Single
use virtual_force.Prelude.{ℕ, Bool, false, Option, none, some, if◌then◌else◌, List, [], ◌∷◌}
use virtual_force.Memory.{Mem}
use virtual_force.Buffer.{BufferInfo}

-- `CLIENT_BUFF_SIZE` and `MAX_SIZE`
abbrev pub shmem_element : ℕ
shmem_element = 2048

abbrev pub shmem_size : ℕ
shmem_size = 4096

-- The system calls of `shmem_init`: the two `shmget`, for the control block and for the bytes, and
-- where `shmat` attaches a segment.
pub record Segments : Type 0 where
  pub shmid_ctrl : Option ℕ
  pub shmid_msg : Option ℕ
  pub shmat : ℕ → Option ℕ

-- The pointers `local_buff_info`, which is `shm_ctrl`, and `local_buff`, which is `shm_msg`.
pub record Shmem : Type 0 where
  pub shm_ctrl : ℕ
  pub shm_msg : ℕ

-- `exit(EXIT_FAILURE)`, or the pointers and the control block.
pub data Attached : Type 0 where
  exits : Attached
  attached : Shmem → BufferInfo → Attached

-- `shmem_init`, with the control block that the segment held before.
unfoldable pub shmem_init : Segments → BufferInfo → Attached
shmem_init os info = elim os.shmid_ctrl [
  | none ↦ exits
  | some ctrl ↦ elim os.shmid_msg [
    | none ↦ exits
    | some msg ↦ elim (os.shmat ctrl) [
      | none ↦ exits
      | some p ↦ elim (os.shmat msg) [
        | none ↦ exits
        | some q ↦
            attached (record { shm_ctrl = p; shm_msg = q })
              (record info {
                head_index_offset = 0;
                tail_index_offset = 0;
                element_length = shmem_element;
                buff_length = shmem_size;
                semaphore = 1;
              })
      ]
    ]
  ]
]

-- `shmem_close`: the pointers on which `shmdt` is called, and whether the process goes on.
pub record Closed : Type 0 where
  pub detached : List ℕ
  pub goes_on : Bool

unfoldable pub shmem_close : (ℕ → Bool) → Shmem → Closed
shmem_close shmdt m =
    if shmdt m.shm_ctrl
    then record { detached = m.shm_ctrl ∷ m.shm_msg ∷ []; goes_on = shmdt m.shm_msg }
    else record { detached = m.shm_ctrl ∷ []; goes_on = false }

-- `shmem_get`: what it stores at its two arguments
unfoldable pub shmem_get : Shmem → ℕ × ℕ
shmem_get m = (m.shm_ctrl, m.shm_msg)
