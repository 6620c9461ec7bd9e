-- ===== src/Examples/Forces.antt =====
-- The theorem on the forces that the force core takes, at a run of parent, child and core.
use virtual_force.Prelude.{◌≡◌, refl, true, false, some, List, [], ◌∷◌, ◌++◌}
use virtual_force.Force.Regions.{ServoCoreProcessCall, ForceVirtualCmd}
use virtual_force.Mmap.Ready.{Ready}
use virtual_force.Controller.Dispatch.{gives_force}
use virtual_force.Main.Sharing.{Turn, executes, reports, reconnects, core_takes, Shared, turns}
use virtual_force.Main.Sharing.Forces.{taken_by, forces, InTime, every_force_taken}
use virtual_force.Examples.Inputs.{command, net, whole}

abbrev at_first : Shared
at_first = record { sent_to_pc = []; child_runs = true; force = whole }

at_first-Ready : Ready at_first.force
at_first-Ready = record { service = refl; monitor = refl; virtual = refl }

abbrev same : ServoCoreProcessCall → ServoCoreProcessCall
same c = c

abbrev emptied : ForceVirtualCmd → ForceVirtualCmd
emptied v = record v { valid = 0 }

-- A force, a report, a turn of the core, a command, and the stop.
abbrev press_release : List Turn
press_release =
    executes (command 15)
    ∷ reports 1
    ∷ core_takes same emptied
    ∷ reconnects
    ∷ executes (command 12)
    ∷ executes (command 16)
    ∷ []

press_release-InTime : InTime false press_release
unfolding gives_force
press_release-InTime = (λ v. refl, tt)

every_force_taken_example :
    (w' : Shared) × (turns net (press_release ++ (core_takes same emptied ∷ [])) at_first ≡ some w')
    × (taken_by net (press_release ++ (core_takes same emptied ∷ [])) at_first
        ≡ forces press_release)
every_force_taken_example =
    every_force_taken net press_release at_first same emptied at_first-Ready refl refl
      press_release-InTime
