-- ===== src/Examples/Processes.antt =====
-- The theorems on the processes of main.c, and runs.
use virtual_force.Prelude.{
  ℕ, zero, suc, ◌+◌, ◌-◌, ◌*◌, ◌%◌, ◌≤◌, ◌<◌, ◌≡◌, refl, arith, List, [], ◌∷◌, ◌++◌, length,
}
use virtual_force.Wire.{store_cmd}
use virtual_force.Network.{Fread, Receive, Fork}
use virtual_force.Main.{Parent, running, boot, rounds}
use virtual_force.Main.Rounds.{Steady, Carries}
use virtual_force.Main.Safety.{IsSafe, main-IsSafe}
use virtual_force.Main.Children.{OneChild, main-OneChild}
use virtual_force.Main.Overrun.{command_overruns}
use virtual_force.Examples.Inputs.{command, read_of, message, reconnect, start, parent}

pub parent-Steady : Steady parent
parent-Steady = record {
  idle = record {
    empty = refl;
    head_in = omega arith;
    element_pos = omega arith;
    element_in = omega arith;
  };
  element_length_at = refl;
  buff_length_at = refl;
  ready = record { service = refl; monitor = refl; virtual = refl };
}

abbrev two_messages : List Receive
two_messages = message (command 13) ∷ message (command 15) ∷ []

abbrev two_reads : List Fread
two_reads = read_of (command 13) ∷ read_of (command 15) ∷ []

main-IsSafe_example :
    IsSafe (rounds (message (command 15) ∷ reconnect (Fork.parent 78) ∷ []) (boot start))
main-IsSafe_example = main-IsSafe start (message (command 15) ∷ reconnect (Fork.parent 78) ∷ [])

main-OneChild_example :
    OneChild (rounds (reconnect (Fork.parent 78) ∷ reconnect (Fork.parent 79) ∷ []) (boot start))
main-OneChild_example =
    main-OneChild start (reconnect (Fork.parent 78) ∷ reconnect (Fork.parent 79) ∷ [])

abbrev times : ℕ → List Receive
times zero = []
times (suc n) = message (command 15) ∷ times n

abbrev reads_times : ℕ → List Fread
reads_times zero = []
reads_times (suc n) = read_of (command 15) ∷ reads_times n

eight-Carries : Carries (times 8) (reads_times 8)
eight-Carries = (
  [],
  refl,
  refl,
  refl,
  (
    [],
    refl,
    refl,
    refl,
    (
      [],
      refl,
      refl,
      refl,
      (
        [],
        refl,
        refl,
        refl,
        (
          [],
          refl,
          refl,
          refl,
          ([], refl, refl, refl, ([], refl, refl, refl, ([], refl, refl, refl, tt))),
        ),
      ),
    ),
  ),
)

-- The ninth command goes to offset 256, 8 bytes of it past the 280.
command_overruns_example :
    (p' : Parent) × (rounds (times 8 ++ message (command 16) ∷ []) (running parent) ≡ running p')
    × ((j : ℕ)
        → 32 * length (reads_times 8) % 280 ≤ j
        → j < 32 * length (reads_times 8) % 280 + 32
        → p'.net.local_buff j ≡ store_cmd (command 16) (j - 32 * length (reads_times 8) % 280))
command_overruns_example =
    command_overruns (times 8) (reads_times 8) (message (command 16)) (read_of (command 16)) []
      parent parent-Steady refl eight-Carries refl refl refl
