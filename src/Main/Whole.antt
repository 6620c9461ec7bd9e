-- ===== src/Main/Whole.antt =====
-- Which commands the parent of main.c executes when no read of a command is resumed, told from the
-- results of the system calls alone.
use virtual_force.Prelude.{
  ◌<◌, ◌≡◌, ◌≢◌, refl, sym, ◌∙◌, ◌⊎◌, inl, inr, arith, ◌==◌, false, Bool-cases, if◌then◌else◌,
  Option, none, some, List, [], ◌∷◌, ◌++◌,
}
use virtual_force.Memory.{Mem, memcpy, zeroed}
use virtual_force.Wire.{load_cmd}
use virtual_force.Wire.RoundTrip.{load_cmd-ext}
use virtual_force.Force.Regions.{Interface}
use virtual_force.Network.{
  Fread, Errno, eintr, ended, read_loop, Receive, established, client_buff_size,
}
use virtual_force.Network.Read.{read_loop_done}
use virtual_force.Controller.{dispatch}
use virtual_force.Main.{Boot, Parent, boot, running, rounds}
use virtual_force.Main.Commands.{command_of, arrived, all_arrived, execute_all, main_executes}

-- The command that these results deliver: the 32 bytes of the first read, if it is a whole one and the PC
-- is connected.
abbrev pub first_read : List Fread → List Mem
first_read [] = []
first_read (r ∷ rs) = if r.count == client_buff_size then r.data_read ∷ [] else []

abbrev pub carried : Receive → List Mem
carried os = if os.tcpi_state == established then first_read os.reads else []

abbrev pub all_carried : List Receive → List Mem
all_carried [] = []
all_carried (os ∷ oss) = carried os ++ all_carried oss

-- The first read is a whole one, or a short one that no signal interrupted.
abbrev pub Unresumed : List Fread → Type 0
Unresumed [] = Unit {0}
Unresumed (r ∷ rs) =
    (r.count ≡ client_buff_size) ⊎ ((r.count < client_buff_size) × (r.error ≢ some eintr))

abbrev pub AllUnresumed : List Receive → Type 0
AllUnresumed [] = Unit {0}
AllUnresumed (os ∷ oss) = Unresumed os.reads × AllUnresumed oss

-- The two tell the same commands.
abbrev SameCommands : List Mem → List Mem → Type 0
SameCommands [] [] = Unit {0}
SameCommands (m ∷ ms) (n ∷ ns) = (load_cmd m ≡ load_cmd n) × SameCommands ms ns
SameCommands _ _ = ⊥

whole_loop :
    (r : Fread) (rs : List Fread)
    → r.count ≡ client_buff_size
    → read_loop (r ∷ rs) client_buff_size zeroed
      ≡ ended 0 (memcpy zeroed 0 r.data_read 0 client_buff_size) rs
unfolding read_loop
whole_loop r rs whole =
    rw whole (read_loop_done rs 0 (memcpy zeroed 0 r.data_read 0 client_buff_size) refl)

-- A short read delivers no command.
short_loop :
    (r : Fread) (rs : List Fread)
    → r.count < client_buff_size
    → r.error ≢ some eintr
    → command_of (read_loop (r ∷ rs) client_buff_size zeroed) ≡ []
unfolding read_loop command_of
short_loop r rs short no_signal = go r.error refl
  where
    go :
        (o : Option Errno)
        → r.error ≡ o
        → command_of (read_loop (r ∷ rs) client_buff_size zeroed) ≡ []
    go none e = ground arith
    go (some eintr) e = absurd (no_signal e)
    go (some Errno.eagain) e = ground arith
    go (some Errno.other) e = ground arith

reads_tell :
    (reads : List Fread)
    → Unresumed reads
    → SameCommands (command_of (read_loop reads client_buff_size zeroed)) (first_read reads)
unfolding read_loop command_of
reads_tell [] u = tt
reads_tell (r ∷ rs) (inl whole) =
    rw (whole_loop r rs whole, whole)
      (
        load_cmd-ext (memcpy zeroed 0 r.data_read 0 client_buff_size) r.data_read
            (λ k lt. ground arith),
        tt,
      )
reads_tell (r ∷ rs) (inr (short, no_signal)) =
    let no_command : (r.count == client_buff_size) ≡ false = ground arith in
    rw (short_loop r rs short no_signal, no_command) tt

arrived-SameCommands : (os : Receive) → Unresumed os.reads → SameCommands (arrived os) (carried os)
unfolding arrived
arrived-SameCommands os u = elim (Bool-cases (os.tcpi_state == established)) [
  | inl up ↦ rw up (reads_tell os.reads u)
  | inr down ↦ rw down tt
]

SameCommands-append :
    (a b c d : List Mem) → SameCommands a b → SameCommands c d → SameCommands (a ++ c) (b ++ d)
SameCommands-append [] [] c d h k = k
SameCommands-append [] (n ∷ b) c d h k = absurd h
SameCommands-append (m ∷ a) [] c d h k = absurd h
SameCommands-append (m ∷ a) (n ∷ b) c d (e, h) k = (e, SameCommands-append a b c d h k)

all-SameCommands :
    (oss : List Receive) → AllUnresumed oss → SameCommands (all_arrived oss) (all_carried oss)
unfolding all_arrived
all-SameCommands [] u = tt
all-SameCommands (os ∷ oss) (u, us) =
    SameCommands-append (arrived os) (carried os) (all_arrived oss) (all_carried oss)
      (arrived-SameCommands os u) (all-SameCommands oss us)

execute-same :
    (a b : List Mem) (s : Interface) → SameCommands a b → execute_all a s ≡ execute_all b s
unfolding execute_all
execute-same [] [] s h = refl
execute-same [] (n ∷ b) s h = absurd h
execute-same (m ∷ a) [] s h = absurd h
execute-same (m ∷ a) (n ∷ b) s (e, h) =
    rw (execute_all, e) (go (dispatch (load_cmd n) s) (λ s1. execute-same a b s1 h))
  where
    go :
        (o : Option Interface)
        → ((s1 : Interface) → execute_all a s1 ≡ execute_all b s1)
        → elim o [ none ↦ none | some s1 ↦ execute_all a s1 ]
          ≡ elim o [ none ↦ none | some s1 ↦ execute_all b s1 ]
    go none k = refl
    go (some s1) k = k s1

-- From the start, through any number of disconnections and new connections: if in each round the first
-- read takes a whole command, or takes less and no signal interrupted it, then as long as the parent goes on, the commands
-- that it has executed are those that whole reads took while the PC was connected, with
-- their bytes as they were read, in their order and each once; nothing else has changed a region.
pub main_executes_reads :
    (b : Boot) (oss : List Receive) {p p' : Parent}
    → AllUnresumed oss
    → boot b ≡ running p
    → rounds oss (boot b) ≡ running p'
    → execute_all (all_carried oss) p.force ≡ some p'.force
main_executes_reads b oss {p} {p'} u e h =
    sym (execute-same (all_arrived oss) (all_carried oss) p.force (all-SameCommands oss u))
    ∙ main_executes b oss e h
