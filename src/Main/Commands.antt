-- ===== src/Main/Commands.antt =====
-- Which commands the parent of main.c executes, whatever the connection does meanwhile.
use virtual_force.Prelude.{
  ◌≡◌, ◌≢◌, refl, sym, ap, ◌∙◌, arith, ◌==◌, true, false, if◌then◌else◌, Bool-cases, Option, none,
  some, List, [], ◌∷◌, ◌++◌, ◌⊎◌, inl, inr,
}
use virtual_force.Memory.{Mem, zeroed}
use virtual_force.Buffer.Single.{IsIdle, not_full}
use virtual_force.Wire.{load_cmd}
use virtual_force.Force.Regions.{Interface}
use virtual_force.Network.{
  Net, Loop, ended, read_loop, read_data, Receive, Received, network_rcv, Pid, Fork, established,
  client_buff_size,
}
use virtual_force.Network.Receiving.{with_command}
use virtual_force.Controller.{dispatch}
use virtual_force.Controller.Dispatch.{dispatch-Ready}
use virtual_force.Main.{Boot, boot, Parent, Process, running, round, rounds}
use virtual_force.Main.Rounds.{Steady, parase_pushed, parase_idle}
use virtual_force.Main.Safety.{IsSafe, round-IsSafe, boot-IsSafe, rounds-Stopped}

-- The commands that arrive in a round: one, if the PC is connected and the loop of `read_data` puts one
-- together.
unfoldable pub command_of : Loop → List Mem
command_of Loop.waiting = []
command_of Loop.exits = []
command_of (ended missing b rest) = if missing == 0 then b ∷ [] else []

unfoldable pub arrived : Receive → List Mem
arrived os =
    if os.tcpi_state == established
    then command_of (read_loop os.reads client_buff_size zeroed)
    else []

unfoldable pub all_arrived : List Receive → List Mem
all_arrived [] = []
all_arrived (os ∷ oss) = arrived os ++ all_arrived oss

-- the commands, executed one after the other
unfoldable pub execute_all : List Mem → Interface → Option Interface
execute_all [] s = some s
execute_all (m ∷ ms) s = elim (dispatch (load_cmd m) s) [
  | none ↦ none
  | some s' ↦ execute_all ms s'
]

-- `network_rcv` returns with the ring as it was if no command arrives, and else with that command.
Takes : Net → List Mem → Received → Type 0
Takes net ms (Received.returned pid n calls) =
    ((ms ≡ []) × (n.local_buff_info ≡ net.local_buff_info))
    ⊎ ((b : Mem) × (ms ≡ b ∷ []) × (n ≡ with_command net b))
Takes net ms r = Unit {0}

network_rcv-Takes :
    (os : Receive) (pid : Pid) (net : Net)
    → IsIdle net.local_buff_info
    → Takes net (arrived os) (network_rcv os pid net)
unfolding network_rcv Takes arrived command_of read_data
network_rcv-Takes os pid net v = elim (Bool-cases (os.tcpi_state == established)) [
  | inl up ↦ go up (read_loop os.reads client_buff_size zeroed) refl
  | inr down ↦ elim (Bool-cases (os.fdopen os.accept)) [
    | inl ok ↦ again down ok os.fork refl
    | inr bad ↦ rw (down, bad) tt
  ]
]
  where
    go :
        (os.tcpi_state == established) ≡ true
        → (l : Loop) → read_loop os.reads client_buff_size zeroed ≡ l
        → Takes net (arrived os) (network_rcv os pid net)
    go up Loop.waiting e = rw (up, not_full v, e) tt
    go up Loop.exits e = rw (up, not_full v, e) tt
    go up (ended missing b rest) e = elim (Bool-cases (missing == 0)) [
      | inl z ↦ rw (up, not_full v, e, z) (inr (b, refl, refl))
      | inr z ↦ rw (up, not_full v, e, z) (inl (refl, refl))
    ]

    again :
        (os.tcpi_state == established) ≡ false
        → os.fdopen os.accept ≡ true
        → (f : Fork) → os.fork ≡ f
        → Takes net (arrived os) (network_rcv os pid net)
    again down ok Fork.child e = rw (down, ok, e) tt
    again down ok (Fork.parent p) e = rw (down, ok, e) (inl (refl, refl))
    again down ok Fork.fork_error e = rw (down, ok, e) (inl (refl, refl))

pub running-force : {p q : Parent} → running p ≡ running q → p.force ≡ q.force
running-force {p} {q} e = ap (λ (x : Process). force_of x) e
  where
    force_of : Process → Interface
    force_of (running r) = r.force
    force_of _ = p.force

-- No command arrives without a connection.
pub arrived_down : (os : Receive) → os.tcpi_state ≢ established → arrived os ≡ []
unfolding arrived
arrived_down os down = ground arith

-- A round that goes on has executed the command that arrived in it, if one did, and nothing else.
pub round_executes :
    (os : Receive) (p : Parent) {p' : Parent}
    → Steady p
    → round os p ≡ running p'
    → execute_all (arrived os) p.force ≡ some p'.force
unfolding round Takes execute_all
round_executes os p {p'} v h =
    go (network_rcv os p.pid_child p.net) refl (network_rcv-Takes os p.pid_child p.net v.idle)
  where
    go :
        (r : Received)
        → network_rcv os p.pid_child p.net ≡ r
        → Takes p.net (arrived os) r
        → execute_all (arrived os) p.force ≡ some p'.force
    go Received.waiting e k = absurd (let q = rw (e, round) at h in cc)
    go (Received.exits calls) e k = absurd (let q = rw (e, round) at h in cc)
    go (Received.in_child n) e k = absurd (let q = rw (e, round) at h in cc)
    go (Received.returned pid n calls) e (inl (none_came, same)) =
        let idle' : IsIdle n.local_buff_info = rw same v.idle in
        rw (none_came, execute_all)
          (ap some (running-force (rw (e, round, parase_idle n p.force idle') at h)))
    go (Received.returned pid n calls) e (inr (b, came, same)) =
        let (s', d, ready) = dispatch-Ready (load_cmd b) p.force v.ready in
        rw (came, execute_all, d)
          (ap some (
            running-force (
              rw (e, round, same, parase_pushed p.net p.force s' b v.idle v.element_length_at d) at
                h)))

-- A round in which a command arrives executes it.
pub round_delivered :
    (os : Receive) (p : Parent) {p' : Parent} {m : Mem}
    → Steady p
    → arrived os ≡ m ∷ []
    → round os p ≡ running p'
    → dispatch (load_cmd m) p.force ≡ some p'.force
unfolding execute_all
round_delivered os p {p'} {m} v came h =
    let (s', d, ready) = dispatch-Ready (load_cmd m) p.force v.ready in
    let done : execute_all (m ∷ []) p.force ≡ some p'.force =
      rw came at (round_executes os p v h) in
    d ∙ rw (d, execute_all) at done

-- A round in which no command arrives leaves the regions alone.
pub round_idle :
    (os : Receive) (p : Parent) {p' : Parent}
    → Steady p
    → arrived os ≡ []
    → round os p ≡ running p'
    → p'.force ≡ p.force
unfolding execute_all
round_idle os p {p'} v none_came h =
    let e : ◌≡◌ {A = Option Interface} (some p.force) (some p'.force) =
      rw (none_came, execute_all) at (round_executes os p v h) in
    cc

execute_all-append :
    (a b : List Mem) (s : Interface) {s' : Interface}
    → execute_all a s ≡ some s'
    → execute_all (a ++ b) s ≡ execute_all b s'
unfolding execute_all
execute_all-append [] b s h = ground arith
execute_all-append (m ∷ a) b s {s'} h =
    go (dispatch (load_cmd m) s) refl (λ s1 k. execute_all-append a b s1 k)
  where
    go :
        (o : Option Interface)
        → dispatch (load_cmd m) s ≡ o
        → ((s1 : Interface)
            → execute_all a s1 ≡ some s'
            → execute_all (a ++ b) s1 ≡ execute_all b s')
        → execute_all (m ∷ a ++ b) s ≡ execute_all b s'
    go none e later = absurd (let q = rw (e, execute_all) at h in cc)
    go (some s1) e later = rw (e, execute_all) (later s1 (rw (e, execute_all) at h))

rounds_execute :
    (oss : List Receive) (p : Parent) {p' : Parent}
    → Steady p
    → rounds oss (running p) ≡ running p'
    → execute_all (all_arrived oss) p.force ≡ some p'.force
unfolding rounds all_arrived execute_all
rounds_execute [] p v h = ap some (running-force h)
rounds_execute (os ∷ oss) p {p'} v h =
    go (round os p) refl (round-IsSafe os p v) (λ p1 safe k. rounds_execute oss p1 safe k)
  where
    go :
        (q : Process)
        → round os p ≡ q
        → IsSafe q
        → ((p1 : Parent)
            → Steady p1
            → rounds oss (running p1) ≡ running p'
            → execute_all (all_arrived oss) p1.force ≡ some p'.force)
        → execute_all (all_arrived (os ∷ oss)) p.force ≡ some p'.force
    go (running p1) e safe later =
        execute_all-append (arrived os) (all_arrived oss) p.force (round_executes os p v e)
        ∙ later p1 safe (rw (e, rounds) at h)
    go Process.waiting e safe later =
        absurd (let q = sym (rounds-Stopped oss Process.waiting tt) ∙ rw (e, rounds) at h in cc)
    go (Process.exited c) e safe later =
        absurd (let q = sym (rounds-Stopped oss (Process.exited c) tt) ∙ rw (e, rounds) at h in cc)
    go (Process.in_child n f) e safe later =
        absurd
          (let q = sym (rounds-Stopped oss (Process.in_child n f) tt) ∙ rw (e, rounds) at h in cc)
    go Process.finished e safe later =
        absurd (let q = sym (rounds-Stopped oss Process.finished tt) ∙ rw (e, rounds) at h in cc)
    go Process.crashed e safe later = absurd safe

-- From the start, through any number of disconnections, new connections and broken reads: as long as
-- the parent goes on, it has executed what the loops of `read_data` put together while the PC was
-- connected, in their order and each once; nothing else has changed a region.
pub main_executes :
    (b : Boot) (oss : List Receive) {p p' : Parent}
    → boot b ≡ running p
    → rounds oss (boot b) ≡ running p'
    → execute_all (all_arrived oss) p.force ≡ some p'.force
main_executes b oss {p} {p'} e h = rounds_execute oss p (rw e at (boot-IsSafe b)) (rw e at h)
