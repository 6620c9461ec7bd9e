-- ===== src/Main/Overrun.antt =====
-- Where the parent of main.c writes the bytes of a command: the ring of `network_init` is 280 bytes
-- long and a command 32, which does not divide 280.
use virtual_force.Prelude.{
  ℕ, zero, suc, ◌+◌, ◌*◌, ◌-◌, ◌%◌, ◌≤◌, ◌<◌, ◌≡◌, refl, sym, ap, ◌∙◌, arith, List, [], ◌∷◌, ◌++◌,
  length,
}
use virtual_force.Buffer.{BufferInfo}
use virtual_force.Buffer.Single.{moved}
use virtual_force.Network.{Fread, Receive, established, client_buff_size, max_size, fresh_info}
use virtual_force.Main.{Parent, Process, running, round, rounds}
use virtual_force.Main.Rounds.{Steady, Carries, round_delivers}
use virtual_force.Main.Safety.{rounds-Stopped}

-- The control block after `n` commands.
pub moves : ℕ → BufferInfo → BufferInfo
moves zero i = i
moves (suc n) i = moves n (moved i)

-- Each command moves the ring on by one element.
rounds_move :
    (oss : List Receive) (rs : List Fread) (p : Parent)
    → Steady p
    → Carries oss rs
    → (p' : Parent) × (rounds oss (running p) ≡ running p')
      × Steady p'
      × (p'.net.local_buff_info ≡ moves (length rs) p.net.local_buff_info)
unfolding rounds moves
rounds_move [] [] p v c = (p, refl, v, refl)
rounds_move [] (r ∷ rs) p v c = absurd c
rounds_move (os ∷ oss) [] p v c = absurd c
rounds_move (os ∷ oss) (r ∷ rs) p v (rest, up, reads, whole, c) =
    let (p', e, v', d, same_child, ring, stored) = round_delivers os p r rest v up reads whole in
    let (p'', e', v'', ring') = rounds_move oss rs p' v' c in
    (p'', ap (rounds oss) e ∙ e', v'', ring' ∙ ap (moves (length rs)) ring)

-- an empty ring of `network_init` with its head at `h`
abbrev at : ℕ → BufferInfo
at h = record fresh_info { tail_index_offset = h; head_index_offset = h }

moves-at : (n h : ℕ) → h < max_size → moves n (at h) ≡ at ((h + 32 * n) % max_size)
unfolding moves
moves-at zero h lt = ap at (omega arith)
moves-at (suc n) h lt = moves-at n ((h + 32) % max_size) (omega arith) ∙ ap at (omega arith)

rounds-append :
    (oss oss' : List Receive) (q : Process) → rounds (oss ++ oss') q ≡ rounds oss' (rounds oss q)
unfolding rounds
rounds-append [] oss' q = refl
rounds-append (os ∷ oss) oss' (running p) = rounds-append oss oss' (round os p)
rounds-append (os ∷ oss) oss' q = sym (rounds-Stopped oss' q tt)

-- From a steady parent whose ring is as `network_init` leaves it, while the PC stays connected and
-- each command arrives whole in one read: the parent goes on after the command that follows `n` others,
-- and all 32 bytes of it then stand in memory from `32 * n % 280` behind the start of `local_buff` on, also
-- those that are past the 280 bytes of the array, as there are where that place is past 248.
pub command_overruns :
    (oss : List Receive) (rs : List Fread) (os : Receive) (r : Fread) (rest : List Fread)
    (p : Parent)
    → Steady p
    → p.net.local_buff_info ≡ fresh_info
    → Carries oss rs
    → os.tcpi_state ≡ established
    → os.reads ≡ r ∷ rest
    → r.count ≡ client_buff_size
    → (p' : Parent) × (rounds (oss ++ os ∷ []) (running p) ≡ running p')
      × ((j : ℕ)
          → 32 * length rs % max_size ≤ j
          → j < 32 * length rs % max_size + 32
          → p'.net.local_buff j ≡ r.data_read (j - 32 * length rs % max_size))
unfolding rounds
command_overruns oss rs os r rest p v new c up reads whole =
    let (p', e, v', ring) = rounds_move oss rs p v c in
    let (p'', e', v'', d, same_child, ring', stored) =
      round_delivers os p' r rest v' up reads whole in
    let place : p'.net.local_buff_info.head_index_offset ≡ 32 * length rs % max_size =
      ap (λ (i : BufferInfo). i.head_index_offset)
        (ring ∙ ap (moves (length rs)) new ∙ moves-at (length rs) 0 (omega arith))
      ∙ omega arith in
    (
      p'',
      rounds-append oss (os ∷ []) (running p) ∙ ap (rounds (os ∷ [])) e ∙ e',
      λ j ge lt. ground (arith, stored (j - 32 * length rs % max_size), place),
    )
