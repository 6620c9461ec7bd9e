-- ===== src/Main/Rounds.antt =====
-- What the rounds of the parent's loop in main.c keep, and what they deliver.
use virtual_force.Prelude.{
  ℕ, ◌+◌, ◌<◌, ◌≡◌, refl, ap, ◌∙◌, arith, Option, none, some, false, List, [], ◌∷◌, ◌++◌,
}
use virtual_force.Memory.{Mem, memcpy, zeroed}
use virtual_force.Buffer.{Pushed, is_buff_empty, push_circle_buff_item, pull_circle_buff_item}
use virtual_force.Buffer.Single.{IsIdle, moved, moved-IsIdle, pull-push, stored_at}
use virtual_force.Wire.{PcCommCmd, load_cmd}
use virtual_force.Wire.RoundTrip.{load_cmd-ext}
use virtual_force.Force.Regions.{Interface}
use virtual_force.Mmap.Ready.{Ready}
use virtual_force.Network.{Net, Fread, Receive, established, client_buff_size, max_size}
use virtual_force.Network.Receiving.{rcv_delivers}
use virtual_force.Controller.{dispatch, controller_msg_parase}
use virtual_force.Controller.Dispatch.{dispatch-Ready}
use virtual_force.Main.{Parent, running, round, rounds}

-- Between two rounds the ring of received commands is empty, its lengths are those of
-- `network_init`, and the pointers to the force core are set.
pub record Steady (p : Parent) : Type 0 where
  pub idle : IsIdle p.net.local_buff_info
  pub element_length_at : p.net.local_buff_info.element_length ≡ client_buff_size
  pub buff_length_at : p.net.local_buff_info.buff_length ≡ max_size
  pub ready : Ready p.force

-- The command that was just pushed to an empty ring is the one that is executed.
pub parase_pushed :
    (net : Net) (s s' : Interface) (p : Mem)
    → IsIdle net.local_buff_info
    → net.local_buff_info.element_length ≡ client_buff_size
    → dispatch (load_cmd p) s ≡ some s'
    → let r = push_circle_buff_item net.local_buff_info net.local_buff p in
      controller_msg_parase (record net { local_buff_info = r.info; local_buff = r.buff }) s
      ≡ some (record net { local_buff_info = moved net.local_buff_info; local_buff = r.buff }, s')
unfolding controller_msg_parase
parase_pushed net s s' p v e d = rw (f.1, f.2, same, d, f.3)
  where
    r : Pushed
    r = push_circle_buff_item net.local_buff_info net.local_buff p

    f :
        (r.result ≡ some net.local_buff_info.element_length)
        × (is_buff_empty r.info ≡ false)
        × ((pull_circle_buff_item r.info r.buff zeroed).result ≡ some 0)
        × ((pull_circle_buff_item r.info r.buff zeroed).info ≡ moved net.local_buff_info)
        × ((k : ℕ)
            → k < net.local_buff_info.element_length
            → (pull_circle_buff_item r.info r.buff zeroed).out k ≡ p k)
    f = pull-push v net.local_buff p zeroed

    same : load_cmd (pull_circle_buff_item r.info r.buff zeroed).out ≡ load_cmd p
    same =
        load_cmd-ext (pull_circle_buff_item r.info r.buff zeroed).out p
          (λ k lt. f.4 k (omega arith))

-- Nothing is executed while the ring is empty.
pub parase_idle :
    (net : Net) (s : Interface)
    → IsIdle net.local_buff_info
    → controller_msg_parase net s ≡ some (net, s)
unfolding controller_msg_parase is_buff_empty
parase_idle net s v = ground arith

-- While the PC is connected, a round in which the whole command arrives executes that command and no
-- other, without a fault, and leaves a steady state with the same child.
pub round_delivers :
    (os : Receive) (p : Parent) (r : Fread) (rest : List Fread)
    → Steady p
    → os.tcpi_state ≡ established
    → os.reads ≡ r ∷ rest
    → r.count ≡ client_buff_size
    → (p' : Parent) × (round os p ≡ running p')
      × Steady p'
      × (dispatch (load_cmd r.data_read) p.force ≡ some p'.force)
      × (p'.pid_child ≡ p.pid_child)
      × (p'.net.local_buff_info ≡ moved p.net.local_buff_info)
      × ((k : ℕ)
          → k < client_buff_size
          → p'.net.local_buff (p.net.local_buff_info.head_index_offset + k) ≡ r.data_read k)
unfolding round
round_delivers os p r rest v up reads whole =
    let (s', d, ready') = dispatch-Ready (load_cmd r.data_read) p.force v.ready in
    (
      record { pid_child = p.pid_child; net = after; force = s'; calls = p.calls ++ [] },
      rw (
        rcv_delivers os p.pid_child p.net r rest v.idle up reads whole,
        round,
        parase_pushed p.net p.force s' message v.idle v.element_length_at (same ∙ d),
      ),
      record {
        idle = moved-IsIdle v.idle;
        element_length_at = v.element_length_at;
        buff_length_at = v.buff_length_at;
        ready = ready';
      },
      d,
      refl,
      refl,
      stored,
    )
  where
    message : Mem
    message = memcpy zeroed 0 r.data_read 0 client_buff_size

    after : Net
    after = record (p.net) {
      local_buff_info = moved p.net.local_buff_info;
      local_buff = (push_circle_buff_item p.net.local_buff_info p.net.local_buff message).buff;
    }

    stored :
        (k : ℕ)
        → k < client_buff_size
        → after.local_buff (p.net.local_buff_info.head_index_offset + k) ≡ r.data_read k
    stored k lt = stored_at v.idle p.net.local_buff message k (omega arith) ∙ ground arith

    same : dispatch (load_cmd message) p.force ≡ dispatch (load_cmd r.data_read) p.force
    same =
        ap (λ (c : PcCommCmd). dispatch c p.force)
          (load_cmd-ext message r.data_read (λ k lt. ground arith))

-- The reads of these rounds are these whole commands, and the PC stays connected.
abbrev pub Carries : List Receive → List Fread → Type 0
Carries [] [] = Unit {0}
Carries (os ∷ oss) (r ∷ rs) =
    (rest : List Fread) × (os.tcpi_state ≡ established)
    × (os.reads ≡ r ∷ rest)
    × (r.count ≡ client_buff_size)
    × Carries oss rs
Carries _ _ = ⊥

-- the commands, executed one after the other
unfoldable pub execute : List Fread → Interface → Option Interface
execute [] s = some s
execute (r ∷ rs) s = elim (dispatch (load_cmd r.data_read) s) [
  | none ↦ none
  | some s' ↦ execute rs s'
]

-- From a steady parent, while the PC stays connected and each command arrives whole in one read,
-- the commands that the PC sends are executed in the order of sending, each once, whatever their
-- number; nothing faults, and the parent goes on in a steady state.
pub rounds_deliver :
    (oss : List Receive) (rs : List Fread) (p : Parent)
    → Steady p
    → Carries oss rs
    → (p' : Parent) × (rounds oss (running p) ≡ running p')
      × Steady p'
      × (execute rs p.force ≡ some p'.force)
unfolding rounds execute
rounds_deliver [] [] p v c = (p, refl, v, refl)
rounds_deliver [] (r ∷ rs) p v c = absurd c
rounds_deliver (os ∷ oss) [] p v c = absurd c
rounds_deliver (os ∷ oss) (r ∷ rs) p v (rest, up, reads, whole, c) =
    let (p', e, v', d, same_child, ring, stored) = round_delivers os p r rest v up reads whole in
    let (p'', e', v'', d') = rounds_deliver oss rs p' v' c in
    (p'', ap (rounds oss) e ∙ e', v'', rw (d, execute) d')
