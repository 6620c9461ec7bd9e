-- ===== src/Main/Safety.antt =====
-- Faults of the parent of main.c, and its state between two rounds.
use virtual_force.Prelude.{◌≡◌, refl, ap, ◌∙◌, arith, List, [], ◌∷◌, inl, inr}
use virtual_force.Buffer.Single.{IsIdle, moved-IsIdle}
use virtual_force.Wire.{load_cmd}
use virtual_force.Mmap.{Mapped, mmap_init}
use virtual_force.Mmap.Ready.{init-Ready}
use virtual_force.Network.{
  Net, Receive, network_rcv, Received, network_init, no_net, Connected, Fork, fresh_info,
}
use virtual_force.Network.Start.{init_ring}
use virtual_force.Network.Receiving.{Receives, network_rcv_lem}
use virtual_force.Controller.Dispatch.{dispatch-Ready}
use virtual_force.Main.{Boot, boot, Parent, Process, running, round, rounds}
use virtual_force.Main.Rounds.{Steady, parase_pushed, parase_idle}

-- What a stretch of the parent may come to: steady if it goes on, and never a crash.
abbrev pub IsSafe : Process → Type 0
IsSafe (running p) = Steady p
IsSafe Process.crashed = ⊥
IsSafe _ = Unit {0}

-- Whatever the system calls of a round return, a steady parent does not crash in it, and is steady
-- after it if it goes on: at most one command is ever in the ring.
pub round-IsSafe : (os : Receive) (p : Parent) → Steady p → IsSafe (round os p)
unfolding round
round-IsSafe os p v =
    go (network_rcv os p.pid_child p.net) refl (network_rcv_lem os p.pid_child p.net)
  where
    go :
        (r : Received)
        → network_rcv os p.pid_child p.net ≡ r
        → Receives p.net r
        → IsSafe (round os p)
    go Received.waiting e h = rw (e, round) tt
    go (Received.exits calls) e h = rw (e, round) tt
    go (Received.in_child n) e h = rw (e, round) tt
    go (Received.returned pid n calls) e (inl same) =
        let idle' : IsIdle n.local_buff_info = rw same.0 v.idle in
        rw (e, round, parase_idle n p.force idle')
          (record {
            idle = idle';
            element_length_at = rw same.0 v.element_length_at;
            buff_length_at = rw same.0 v.buff_length_at;
            ready = v.ready;
          })
    go (Received.returned pid n calls) e (inr (m, same)) =
        let (s', d, ready') = dispatch-Ready (load_cmd m) p.force v.ready in
        rw
          (
            e ∙ ap (λ (x : Net). Received.returned pid x calls) same,
            round,
            parase_pushed p.net p.force s' m v.idle v.element_length_at d,
          )
          (record {
            idle = moved-IsIdle v.idle;
            element_length_at = v.element_length_at;
            buff_length_at = v.buff_length_at;
            ready = ready';
          })

-- a process that does not go on
abbrev pub Stopped : Process → Type 0
Stopped (running p) = ⊥
Stopped _ = Unit {0}

pub rounds-Stopped : (oss : List Receive) (q : Process) → Stopped q → rounds oss q ≡ q
unfolding rounds
rounds-Stopped [] q h = refl
rounds-Stopped (os ∷ oss) (running p) h = absurd h
rounds-Stopped (os ∷ oss) q h = refl

rounds-IsSafe : (oss : List Receive) (q : Process) → IsSafe q → IsSafe (rounds oss q)
unfolding rounds
rounds-IsSafe [] q h = h
rounds-IsSafe (os ∷ oss) (running p) h = rounds-IsSafe oss (round os p) (round-IsSafe os p h)
rounds-IsSafe (os ∷ oss) q h = h

-- What `main` does before its loop leaves a steady parent, if it gets there.
pub boot-IsSafe : (b : Boot) → IsSafe (boot b)
unfolding boot
boot-IsSafe b = go (mmap_init b.opened b.mmap) refl (network_init b.sockets no_net) refl b.fork refl
  where
    fresh : IsIdle fresh_info
    fresh = record {
      empty = refl;
      head_in = omega arith;
      element_pos = omega arith;
      element_in = omega arith;
    }

    go :
        (m : Mapped)
        → mmap_init b.opened b.mmap ≡ m
        → (c : Connected) → network_init b.sockets no_net ≡ c
        → (f : Fork) → b.fork ≡ f
        → IsSafe (boot b)
    go (Mapped.exits u) e c e' f e'' = rw (e, boot) tt
    go (Mapped.mapped pages) e (Connected.exits k) e' f e'' = rw (e, boot, e') tt
    go (Mapped.mapped pages) e (Connected.connected n) e' Fork.child e'' = rw (e, boot, e', e'') tt
    go (Mapped.mapped pages) e (Connected.connected n) e' Fork.fork_error e'' =
        rw (e, boot, e', e'') tt
    go (Mapped.mapped pages) e (Connected.connected n) e' (Fork.parent k) e'' =
        rw (e, boot, e', e'')
          (record {
            idle = rw (init_ring b.sockets e') fresh;
            element_length_at = rw (init_ring b.sockets e');
            buff_length_at = rw (init_ring b.sockets e');
            ready = (init-Ready b.opened b.mmap b.contents e).0;
          })

-- The parent never crashes: from the start, whatever the system calls of the start and of any number
-- of rounds return, no access of a command goes through a NULL pointer; between two rounds no command
-- is left in the ring.
pub main-IsSafe : (b : Boot) (oss : List Receive) → IsSafe (rounds oss (boot b))
main-IsSafe b oss = rounds-IsSafe oss (boot b) (boot-IsSafe b)
