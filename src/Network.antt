-- ===== src/Network.antt =====
-- VirtualForce_linux/network_client.c: the connection to the PC and the ring of received commands.
-- What the sockets, the stream and the processes do is an argument: the results of the system calls
-- of one call of a function, in a record. A file descriptor is an `Option`, `none` for -1.
pub mod Read
pub mod Receiving
pub mod Start
pub mod Sending
pub mod Misfit
pub mod Shipped
pub mod Waiting
use virtual_force.Prelude.{
  ℕ, zero, suc, ◌+◌, ◌-◌, ◌<◌, Bool, true, false, List, [], ◌∷◌, ◌++◌, Option, none, some, ltb,
  ◌==◌, if◌then◌else◌, length,
}
use virtual_force.Memory.{Mem, memcpy, zeroed}
use virtual_force.Buffer.{BufferInfo, is_buff_full, push_circle_buff_item}
use virtual_force.Wire.{cmd_size}

-- `Net_Circle_Buff_t`. The memory holds `local_buff` at offset 0, and from `max_size` on what follows
-- it in the struct: 4 bytes of padding, then the mutex.
pub record Net : Type 0 where
  pub fd : Option ℕ
  pub sfd : Option ℕ
  pub local_buff_info : BufferInfo
  pub local_buff : Mem

-- `MAX_SIZE` and `CLIENT_BUFF_SIZE`
abbrev pub max_size : ℕ
max_size = 280

abbrev pub client_buff_size : ℕ
client_buff_size = cmd_size

-- the static `net_buff` at the start
abbrev pub no_net : Net
no_net = record {
  fd = some 0;
  sfd = some 0;
  local_buff_info = record {
    tail_index_offset = 0;
    head_index_offset = 0;
    element_length = 0;
    buff_length = 0;
    safety_resevd = 0;
    semaphore = 0;
    write_lock = 0;
  };
  local_buff = zeroed;
}

-- The system calls of `network_client_connect`: `socket`, whether `setsockopt` succeeds on a
-- descriptor, `bind`, `listen`, `accept`, and whether `fdopen` succeeds on a descriptor.
pub record Sockets : Type 0 where
  pub socket : Option ℕ
  pub setsockopt : Option ℕ → Bool
  pub bind : Bool
  pub listen : Bool
  pub accept : Option ℕ
  pub fdopen : Option ℕ → Bool

-- `exit(status)`, or the connection.
pub data Connected : Type 0 where
  exits : ℕ → Connected
  connected : Net → Connected

-- The first test is on `fd`, not on the `sfd` that `socket` gave.
unfoldable pub network_client_connect : Sockets → Net → Connected
network_client_connect os net = elim net.fd [
  | none ↦ exits 0
  | some _ ↦
      if os.setsockopt os.socket
      then (if os.bind
          then (if os.listen
              then elim os.accept [
                | none ↦ exits 1
                | some fd ↦
                    if os.fdopen (some fd)
                    then connected (record net { sfd = os.socket; fd = some fd })
                    else exits 1
              ]
              else exits 1)
          else exits 1)
      else exits 1
]

-- The ring of `network_init`; the fields that it does not set keep the 0 of a static variable.
abbrev pub fresh_info : BufferInfo
fresh_info = record {
  tail_index_offset = 0;
  head_index_offset = 0;
  element_length = client_buff_size;
  buff_length = max_size;
  safety_resevd = 0;
  semaphore = 1;
  write_lock = 0;
}

unfoldable pub network_init : Sockets → Net → Connected
network_init os net = elim (network_client_connect os net) [
  | exits status ↦ exits status
  | connected n ↦ connected (record n {
    local_buff_info = record (n.local_buff_info) {
      head_index_offset = 0;
      tail_index_offset = 0;
      element_length = client_buff_size;
      buff_length = max_size;
      semaphore = 1;
    };
  })
]

-- `errno` after a read that set the error mark of the stream
pub data Errno : Type 0 where
  eintr eagain other : Errno

-- What one `fread` did: the bytes that it stored, and the error that `ferror` then finds, if any.
pub record Fread : Type 0 where
  pub data_read : Mem
  pub count : ℕ
  pub error : Option Errno

-- How the loop of `read_data` ends: `exit(1)`, or with the count that is missing and the buffer;
-- `waiting` is a read that has not returned when the list ends.
pub data Loop : Type 0 where
  waiting : Loop
  exits : Loop
  ended : ℕ → Mem → List Fread → Loop

-- `while(total_len)`, over the reads to come; `read_len` is `MIN(total_len, CLIENT_BUFF_SIZE)`.
unfoldable pub read_loop : List Fread → ℕ → Mem → Loop
read_loop reads zero buffer = ended 0 buffer reads
read_loop [] (suc n) buffer = waiting
read_loop (r ∷ reads) (suc n) buffer =
    let total_len = suc n in
    let read_len = (if ltb client_buff_size total_len then client_buff_size else total_len) in
    let buffer' : Mem = memcpy buffer 0 r.data_read 0 r.count in
    let rest = total_len - r.count in
    let again = read_loop reads rest buffer' in
    if ltb r.count read_len
    then elim r.error [
      | none ↦ ended rest buffer' reads
      | some e ↦ elim e [ eintr ↦ again | eagain ↦ ended rest buffer' reads | other ↦ exits ]
    ]
    else again

-- How `read_data` ends: `failed` is the returned -1, `pushed` the returned 0.
pub data ReadData : Type 0 where
  waiting : ReadData
  exits : ReadData
  failed : Net → ReadData
  pushed : Net → ReadData

unfoldable pub read_data : List Fread → Net → ℕ → ReadData
read_data reads net len = elim (read_loop reads len zeroed) [
  | waiting ↦ ReadData.waiting
  | exits ↦ ReadData.exits
  | ended missing buffer _ ↦
      if missing == 0
      then (let r = push_circle_buff_item net.local_buff_info net.local_buff buffer in
          pushed (record net { local_buff_info = r.info; local_buff = r.buff }))
      else failed net
]

-- What `fork` returns: 0 in the child, the child's number in the parent, or -1.
pub data Fork : Type 0 where
  child : Fork
  parent : ℕ → Fork
  fork_error : Fork

-- `pid_t`: the number of a process, or -1. `kill` at -1 reaches every process that it may.
pub data Pid : Type 0 where
  process : ℕ → Pid
  all_processes : Pid

-- The calls that act on other processes and descriptors, in order.
pub data Call : Type 0 where
  kill : Pid → Call
  close : Option ℕ → Call
  forked : ℕ → Call

-- The system calls of one `network_rcv`.
pub record Receive : Type 0 where
  pub tcpi_state : ℕ
  pub reads : List Fread
  pub accept : Option ℕ
  pub fdopen : Option ℕ → Bool
  pub fork : Fork

-- How `network_rcv` ends: it returns the number of the child, or this is the new child, which goes
-- on for ever in `controller_display_res`.
pub data Received : Type 0 where
  waiting : Received
  exits : List Call → Received
  in_child : Net → Received
  returned : Pid → Net → List Call → Received

-- `TCP_ESTABLISHED`
abbrev pub established : ℕ
established = 1

unfoldable pub network_rcv : Receive → Pid → Net → Received
network_rcv os pid net =
    if os.tcpi_state == established
    then (if is_buff_full net.local_buff_info
        then returned pid net []
        else elim (read_data os.reads net client_buff_size) [
          | waiting ↦ Received.waiting
          | exits ↦ Received.exits []
          | failed n ↦ returned pid n []
          | pushed n ↦ returned pid n []
        ])
    else (let calls = kill pid ∷ close net.fd ∷ [] in
        if os.fdopen os.accept
        then (let n = record net { fd = os.accept } in
            elim os.fork [
              | child ↦ in_child n
              | parent p ↦ returned (process p) n (kill pid ∷ close net.fd ∷ forked p ∷ [])
              | fork_error ↦ returned all_processes n calls
            ])
        else Received.exits calls)
