-- ===== src/Main.antt =====
-- VirtualForce_linux/main.c: the parent process, from the start to the loop that receives and
-- executes commands.
pub mod Rounds
pub mod Children
pub mod Safety
pub mod Commands
pub mod Whole
pub mod Overrun
pub mod Sharing
use virtual_force.Prelude.{ℕ, Bool, List, [], ◌∷◌, ◌++◌, Option, none, some}
use virtual_force.Force.Regions.{Interface}
use virtual_force.Mmap.{Mapped, Contents, MmapComm, mmap_init, mmap_close, servo_force_comm_init}
use virtual_force.Network.{
  Net, no_net, Sockets, network_init, Connected, Pid, process, Fork, Call, kill, forked, Receive,
  Received, network_rcv,
}
use virtual_force.Controller.{controller_msg_parase}

-- The parent between two rounds of its loop, with the calls made so far.
pub record Parent : Type 0 where
  pub pid_child : Pid
  pub net : Net
  pub force : Interface
  pub calls : List Call

-- How a stretch of the parent's code ends: it goes on; it waits in a read; it called `exit`; it is
-- the child of a `fork`; `main` returned; or it crashed on a fault.
pub data Process : Type 0 where
  running : Parent → Process
  waiting : Process
  exited : List Call → Process
  in_child : Net → Interface → Process
  finished : Process
  crashed : Process

-- One round of the `while(1)`: `network_rcv`, then `controller_msg_parase`.
unfoldable pub round : Receive → Parent → Process
round os p = elim (network_rcv os p.pid_child p.net) [
  | Received.waiting ↦ Process.waiting
  | Received.exits calls ↦ exited (p.calls ++ calls)
  | Received.in_child net ↦ Process.in_child net p.force
  | Received.returned pid net calls ↦ elim (controller_msg_parase net p.force) [
    | none ↦ crashed
    | some (net', force') ↦
        running (record { pid_child = pid; net = net'; force = force'; calls = p.calls ++ calls })
  ]
]

-- rounds, one after the other
unfoldable pub rounds : List Receive → Process → Process
rounds [] p = p
rounds (os ∷ oss) (running p) = rounds oss (round os p)
rounds (os ∷ oss) p = p

-- The system calls before the loop.
pub record Boot : Type 0 where
  pub opened : Bool
  pub mmap : ℕ → Option ℕ
  pub contents : Contents
  pub sockets : Sockets
  pub fork : Fork

-- `main` up to its loop
unfoldable pub boot : Boot → Process
boot os = elim (mmap_init os.opened os.mmap) [
  | Mapped.exits _ ↦ exited []
  | Mapped.mapped pages ↦ elim (network_init os.sockets no_net) [
    | Connected.exits _ ↦ exited []
    | Connected.connected net ↦
        (let force = servo_force_comm_init pages os.contents in
          elim os.fork [
            | Fork.child ↦ Process.in_child net force
            | Fork.parent p ↦
                running (record {
                  pid_child = process p;
                  net = net;
                  force = force;
                  calls = forked p ∷ [];
                })
            | Fork.fork_error ↦ finished
          ])
  ]
]

-- `sighandler`, between two rounds: the pages that `mmap_close` unmaps, and how the parent ends.
unfoldable pub sighandler : MmapComm → Parent → List (Option ℕ) × Process
sighandler pages p = (mmap_close pages, exited (p.calls ++ kill p.pid_child ∷ []))
