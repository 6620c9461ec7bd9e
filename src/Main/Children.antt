-- ===== src/Main/Children.antt =====
-- The child processes of main.c and of `network_rcv`: how many are alive at a time.
use virtual_force.Prelude.{
  ℕ, ◌≡◌, refl, ap, ◌∙◌, arith, Option, none, some, true, false, ◌==◌, if◌then◌else◌, List, [], ◌∷◌,
  ◌++◌, inl, inr, Bool-cases,
}
use virtual_force.Network.{
  Net, Receive, Received, network_rcv, ReadData, read_data, client_buff_size, established, Pid,
  process, all_processes, Fork, Call, kill, close, forked,
}
use virtual_force.Buffer.{is_buff_full}
use virtual_force.Force.Regions.{Interface}
use virtual_force.Controller.{controller_msg_parase}
use virtual_force.Main.{Boot, boot, Parent, Process, running, round, rounds, sighandler}
use virtual_force.Mmap.{
  MmapComm, mapped, mmap_init, mmap_close, servo_cmd_addr, force_monitor, force_given_vir,
}

-- the processes other than `k`
unfoldable pub without : ℕ → List ℕ → List ℕ
without k [] = []
without k (p ∷ ps) = let rest = without k ps in if p == k then rest else p ∷ rest

-- The children alive after these calls, when `ps` were alive before.
unfoldable pub alive : List ℕ → List Call → List ℕ
alive ps [] = ps
alive ps (kill (process k) ∷ calls) = alive (without k ps) calls
alive ps (kill all_processes ∷ calls) = alive [] calls
alive ps (close fd ∷ calls) = alive ps calls
alive ps (forked k ∷ calls) = alive (k ∷ ps) calls

alive-append : (ps : List ℕ) (a b : List Call) → alive ps (a ++ b) ≡ alive (alive ps a) b
unfolding alive
alive-append ps [] b = refl
alive-append ps (kill (process k) ∷ a) b = alive-append (without k ps) a b
alive-append ps (kill all_processes ∷ a) b = alive-append [] a b
alive-append ps (close fd ∷ a) b = alive-append ps a b
alive-append ps (forked k ∷ a) b = alive-append (k ∷ ps) a b

-- the children that `pid` names
abbrev pub named : Pid → List ℕ
named (process k) = k ∷ []
named all_processes = []

-- `network_rcv` goes from the children that its argument names to those that its result names.
abbrev pub KeepsChildren : Pid → Received → Type 0
KeepsChildren pid (Received.returned pid' n calls) = alive (named pid) calls ≡ named pid'
KeepsChildren pid r = Unit {0}

killed :
    (pid : Pid) (fd : Option ℕ) (calls : List Call)
    → alive (named pid) (kill pid ∷ close fd ∷ calls) ≡ alive [] calls
unfolding alive without
killed (process k) fd calls = ap (λ (ps : List ℕ). alive ps calls) (ground arith)
killed all_processes fd calls = refl

network_rcv_children :
    (os : Receive) (pid : Pid) (net : Net) → KeepsChildren pid (network_rcv os pid net)
unfolding network_rcv alive
network_rcv_children os pid net = elim (Bool-cases (os.tcpi_state == established)) [
  | inl up ↦ elim (Bool-cases (is_buff_full net.local_buff_info)) [
    | inl full ↦ rw (up, full) refl
    | inr free ↦ go up free (read_data os.reads net client_buff_size) refl
  ]
  | inr down ↦ elim (Bool-cases (os.fdopen os.accept)) [
    | inl open_ok ↦ again down open_ok os.fork refl
    | inr failed_open ↦ rw (down, failed_open) tt
  ]
]
  where
    go :
        (os.tcpi_state == established) ≡ true
        → is_buff_full net.local_buff_info ≡ false
        → (r : ReadData) → read_data os.reads net client_buff_size ≡ r
        → KeepsChildren pid (network_rcv os pid net)
    go up free ReadData.waiting e = rw (up, free, e) tt
    go up free ReadData.exits e = rw (up, free, e) tt
    go up free (ReadData.failed n) e = rw (up, free, e) refl
    go up free (ReadData.pushed n) e = rw (up, free, e) refl

    again :
        (os.tcpi_state == established) ≡ false
        → os.fdopen os.accept ≡ true
        → (f : Fork) → os.fork ≡ f
        → KeepsChildren pid (network_rcv os pid net)
    again down ok Fork.child e = rw (down, ok, e) tt
    again down ok (Fork.parent p) e = rw (down, ok, e) (killed pid net.fd (forked p ∷ []))
    again down ok Fork.fork_error e = rw (down, ok, e) (killed pid net.fd [])

-- The children alive are those that `pid_child` names: one, or none after a failed `fork`.
abbrev pub OneChild : Process → Type 0
OneChild (running p) = alive [] p.calls ≡ named p.pid_child
OneChild _ = Unit {0}

round-OneChild : (os : Receive) (p : Parent) → OneChild (running p) → OneChild (round os p)
unfolding round
round-OneChild os p h =
    go (network_rcv os p.pid_child p.net) refl (network_rcv_children os p.pid_child p.net)
  where
    go :
        (r : Received)
        → network_rcv os p.pid_child p.net ≡ r
        → KeepsChildren p.pid_child r
        → OneChild (round os p)
    go Received.waiting e k = rw (e, round) tt
    go (Received.exits calls) e k = rw (e, round) tt
    go (Received.in_child n) e k = rw (e, round) tt
    go (Received.returned pid n calls) e k = parase (controller_msg_parase n p.force) refl
      where
        parase :
            (o : Option (Net × Interface))
            → controller_msg_parase n p.force ≡ o
            → OneChild (round os p)
        parase none e' = rw (e, round, e') tt
        parase (some (n', s')) e' = rw (e, round, e') (alive-append [] p.calls calls ∙ rw h k)

rounds-OneChild : (oss : List Receive) (q : Process) → OneChild q → OneChild (rounds oss q)
unfolding rounds
rounds-OneChild [] q h = h
rounds-OneChild (os ∷ oss) (running p) h = rounds-OneChild oss (round os p) (round-OneChild os p h)
rounds-OneChild (os ∷ oss) q h = h

boot-OneChild : (b : Boot) → OneChild (boot b)
unfolding boot alive
boot-OneChild b = ground arith

-- However often the PC disconnects and comes back, and whatever the system calls return, at most one
-- child is alive between two rounds of the parent: the one that `pid_child` names, and none if the
-- last `fork` failed.
pub main-OneChild : (b : Boot) (oss : List Receive) → OneChild (rounds oss (boot b))
main-OneChild b oss = rounds-OneChild oss (boot b) (boot-OneChild b)

kill_named : (pid : Pid) → alive (named pid) (kill pid ∷ []) ≡ []
unfolding alive without
kill_named (process k) = ground arith
kill_named all_processes = refl

-- An interrupt between two rounds leaves no child behind, however often the PC came back before
-- and whatever the system calls returned: the handler ends the parent after it has killed the
-- child that is alive, and unmaps the three pages that `mmap_init` mapped.
pub sighandler_kills :
    (b : Boot) (oss : List Receive) {p : Parent} {pages : MmapComm}
    → mmap_init b.opened b.mmap ≡ mapped pages
    → rounds oss (boot b) ≡ running p
    → (calls : List Call) × ((sighandler pages p).1 ≡ Process.exited calls)
      × (alive [] calls ≡ [])
      × ((sighandler pages p).0
          ≡ b.mmap servo_cmd_addr ∷ b.mmap force_monitor ∷ b.mmap force_given_vir ∷ [])
unfolding sighandler mmap_init mmap_close
sighandler_kills b oss {p} {pages} m h =
    let one : OneChild (running p) = rw h at (main-OneChild b oss) in
    (
      _,
      refl,
      alive-append [] p.calls (kill p.pid_child ∷ []) ∙ rw one (kill_named p.pid_child),
      ground arith,
    )
