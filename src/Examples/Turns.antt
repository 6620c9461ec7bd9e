-- ===== src/Examples/Turns.antt =====
-- The theorems on the parent, the child, the threads and the force core in turn, and runs.
use virtual_force.Prelude.{
  ℕ, ◌≡◌, ◌≢◌, ◌↔◌, refl, arith, inl, inr, true, ◌⊎◌, ℕ_discrete, ◌==◌, if◌then◌else◌, none, some,
  List, [], ◌∷◌, ◌<◌,
}
use virtual_force.Wire.{PcCommCmd}
use virtual_force.Force.Regions.{ForceMonitor, ForceVirtualCmd}
use virtual_force.Force.Slots.{
  axis, set_axis, outside, Slot, Move, called, accesses, access, core, move, moves,
}
use virtual_force.Force.Slots.Upload
use virtual_force.Force.Slots.Told.{AllTell, no_report_torn}
use virtual_force.Force.Slots.Whole.{no_force_torn}
use virtual_force.Network.{Fread, eintr, ReadData, read_data}
use virtual_force.Network.Read.{total}
use virtual_force.Controller.{blank_report}
use virtual_force.Network.Waiting.{all_interrupted, read_data_waits}
use virtual_force.Main.Sharing.{Turn, executes, reports, reconnects, core_takes, Shared, turns}
use virtual_force.Main.Sharing.Apart.{for_commands, for_reports, commands_reports_apart}
use virtual_force.Mmap.Ready.{Ready}
use virtual_force.Examples.Inputs.{command, counting, net, whole, virtual, monitor, six}

-- two interrupted reads, of 12 and of 8 bytes
abbrev cut_off : ℕ → Fread
cut_off n = record { data_read = counting 0; count = n; error = some eintr }

read_data_waits_example : (read_data (cut_off 12 ∷ cut_off 8 ∷ []) net 32 ≡ ReadData.waiting) ↔ (
    (all_interrupted (cut_off 12 ∷ cut_off 8 ∷ []) ≡ true)
    × (total (cut_off 12 ∷ cut_off 8 ∷ []) < 32))
read_data_waits_example = read_data_waits (cut_off 12 ∷ cut_off 8 ∷ []) net (omega arith)

whole-Ready : Ready whole
whole-Ready = record { service = refl; monitor = refl; virtual = refl }

abbrev shared : Shared
shared = record { sent_to_pc = []; child_runs = true; force = whole }

-- a force, a report, the core that takes the force, a report after the PC has gone, and one after it
-- has come back
abbrev six_turns : List Turn
six_turns =
    executes (command 15)
    ∷ reports 1
    ∷ core_takes (λ c. c) (λ r. record r { valid = 0 })
    ∷ reports 8
    ∷ reconnects
    ∷ reports 1
    ∷ []

commands_reports_apart_example :
    (a b : Shared) × (turns net (for_commands six_turns) shared ≡ some a)
    × (turns net (for_reports six_turns) shared ≡ some b)
    × (turns net six_turns shared
        ≡ some (record b { force = record (a.force) { monitor_info = b.force.monitor_info } }))
commands_reports_apart_example = commands_reports_apart net six_turns shared whole-Ready

-- a call, with a core that takes any force after each access
abbrev taker : ForceVirtualCmd → ForceVirtualCmd
taker r = record r { valid = 0 }

taker-polite :
    (r : ForceVirtualCmd) → (taker r ≡ r) ⊎ ((r.valid ≢ 0) × (taker r ≡ record r { valid = 0 }))
taker-polite r = elim (ℕ_discrete r.valid 0) [ yes e ↦ inl (ground arith) | no ne ↦ inr (ne, refl) ]

abbrev with_core : List Move
with_core =
    called (command 15)
    ∷ accesses
    ∷ core taker
    ∷ accesses
    ∷ accesses
    ∷ accesses
    ∷ core taker
    ∷ accesses
    ∷ accesses
    ∷ accesses
    ∷ accesses
    ∷ []

abbrev empty_slot : Slot
empty_slot = record { writer = outside; region = virtual 0; given = none }

handed_over : (moves with_core empty_slot).region.valid ≢ 0
unfolding moves move access
handed_over e = absurd (omega arith)

no_force_torn_example :
    (c : PcCommCmd) × ((moves with_core empty_slot).given ≡ some c)
    × ((moves with_core empty_slot).region.force ≡ c.params)
no_force_torn_example =
    no_force_torn with_core (virtual 0) (taker-polite, (taker-polite, tt)) refl handed_over

-- a core that writes news when there is none
abbrev teller : ForceMonitor → ForceMonitor
teller r = if r.valid == 1 then r else monitor

teller-patient : (r : ForceMonitor) → r.valid ≡ 1 → teller r ≡ r
teller-patient r e = ground arith

abbrev telling_core : List Upload.Move
telling_core =
    Upload.Move.core teller
    ∷ Upload.Move.called blank_report
    ∷ Upload.Move.accesses
    ∷ Upload.Move.core teller
    ∷ Upload.Move.accesses
    ∷ Upload.Move.accesses
    ∷ Upload.Move.core teller
    ∷ Upload.Move.accesses
    ∷ Upload.Move.accesses
    ∷ Upload.Move.accesses
    ∷ Upload.Move.accesses
    ∷ Upload.Move.accesses
    ∷ Upload.Move.accesses
    ∷ []

abbrev no_news : ForceMonitor
no_news = record monitor { valid = 0 }

no_report_torn_example :
    AllTell
      (Upload.moves telling_core (record {
        reader = Upload.outside;
        region = no_news;
        monitor = blank_report;
        told = [];
      })).told
no_report_torn_example =
    no_report_torn telling_core no_news blank_report
      (teller-patient, (teller-patient, (teller-patient, tt)))

told_once :
    (Upload.moves telling_core (record {
      reader = Upload.outside;
      region = no_news;
      monitor = blank_report;
      told = [];
    })).told
    ≡ (monitor, record { head = 0x11181118; force_state = 3; force_theta = six 7 }) ∷ []
unfolding Upload.moves Upload.move Upload.access set_axis axis
told_once = refl

given_last : (moves with_core empty_slot).given ≡ some (command 15)
unfolding moves move access
given_last = refl
