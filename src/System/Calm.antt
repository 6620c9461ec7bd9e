-- ===== src/System/Calm.antt =====
-- The whole program while nobody disturbs it, whichever of its parts takes the next step.
use virtual_force.Prelude.{◌≡◌}
use virtual_force.Pc.Clicks.{effects}
use virtual_force.Pc.Widget.{Qt, timeout}
use virtual_force.System.{
  System, Step, user, refused, executes, reports, child_ends, reads, reads_none, idles, reconnects,
  core, Reach, start, later,
}
use virtual_force.System.Spec.{Spec}
use virtual_force.System.Stands.{Stands}
use virtual_force.System.Settles.{last_of}

module _ {qt : Qt} where
  -- A command is executed, a report is read, the timer shows, or a round has no command.
  abbrev pub IsCalm : {s t : System} → Step qt s t → Type 0
  IsCalm (executes os r rs rest p q here reads_it whole h) = Unit {0}
  IsCalm (reads m ms w calls at q h) = Unit {0}
  IsCalm (user e w calls own h) = e ≡ timeout
  IsCalm (idles os p none_came here h) = Unit {0}
  IsCalm (refused at) = ⊥
  IsCalm (reports net m n f lives h) = ⊥
  IsCalm (child_ends tcpi_state net c f lives off h) = ⊥
  IsCalm (reads_none m n dropped ms w calls at no_report q h) = ⊥
  IsCalm (reconnects os p at off h) = ⊥
  IsCalm (core f g k keep) = ⊥

  abbrev pub AreCalm : {s t : System} → Reach qt s t → Type 0
  AreCalm start = Unit {0}
  AreCalm (later r x) = AreCalm r × IsCalm x

module _ (qt : Qt) where
  -- What is to be done in all, and what the window is to hold in the end, stays the same.
  record Keeps (a b : Spec) : Type 0 where
    done : effects qt b.asked b.regions ≡ effects qt a.asked a.regions
    last : last_of b.news b.held ≡ last_of a.news a.held
