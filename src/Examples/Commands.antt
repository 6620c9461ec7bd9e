-- ===== src/Examples/Commands.antt =====
-- The region for commands byte by byte, at a run.
use virtual_force.Prelude.{ℕ, ◌≡◌, refl, arith, List, [], ◌∷◌}
use virtual_force.Wire.{byte}
use virtual_force.Force.Regions.{ServoCoreProcessCall}
use virtual_force.Force.Service.{no_call, cmd_working, cmd_idle, cmd_switch_mode}
use virtual_force.Force.Slots.Commands.{
  CommandMove, called, stores, returns, core_reads, CommandSlot, command_move, command_moves,
  call_byte, word,
}
use virtual_force.Force.Slots.Commands.Untorn.{at_rest, no_call-IsBare, IsWhole, no_command_torn}

-- two commands, the second of which overtakes the reading of the first
abbrev commands : List CommandMove
commands =
    called (record no_call { cmd = cmd_working })
    ∷ stores 7
    ∷ stores 0
    ∷ returns
    ∷ core_reads 4
    ∷ called (record no_call { cmd = cmd_idle })
    ∷ stores 0
    ∷ core_reads 0
    ∷ []

no_command_torn_example :
    let s = command_moves commands (at_rest (λ k. 0)) in
    IsWhole 0 s.commands s.region × IsWhole 0 s.commands s.seen
no_command_torn_example =
    no_command_torn (λ k. 0) commands (λ k. refl)
      (no_call-IsBare cmd_working (omega arith), (no_call-IsBare cmd_idle (omega arith), tt))

abbrev mode_call : ℕ → ServoCoreProcessCall
mode_call m = record no_call { cmd = cmd_switch_mode; param1 = m }

-- With parameters it is otherwise: the core reads the first byte of a switch to mode 2, and before
-- its parameter is stored the one of the call before it, to mode 1.
torn : CommandSlot
unfolding command_moves command_move
torn =
    command_moves
      (called (mode_call 1)
        ∷ stores 0
        ∷ stores 4
        ∷ returns
        ∷ called (mode_call 2)
        ∷ stores 0
        ∷ core_reads 0
        ∷ core_reads 4
        ∷ stores 4
        ∷ returns
        ∷ [])
      (at_rest (λ k. 0))

mode_torn : (torn.seen 0 ≡ cmd_switch_mode) × (torn.seen 4 ≡ 1) × (torn.region 4 ≡ 2)
unfolding torn call_byte word byte command_moves command_move
mode_torn = (refl, refl, refl)
