-- ===== src/Main/Sharing/Forces.antt =====
-- Which forces of the PC the force core gets, over the turns of main.c.
use virtual_force.Prelude.{
  ◌≡◌, refl, sym, ap, ◌∙◌, arith, Bool, true, false, Bool-cases, Option, none, some, List, [], ◌∷◌,
  ◌++◌, if◌then◌else◌, changed, value_of, inl, inr, ◌==◌,
}
use virtual_force.Wire.{Axes}
use virtual_force.Force.Regions.{ServoCoreProcessCall, ForceVirtualCmd}
use virtual_force.Force.Exchange.{dead_beef}
use virtual_force.Network.{Net, established}
use virtual_force.Mmap.Ready.{Ready}
use virtual_force.Controller.Dispatch.{
  dispatch_lem, gives_force, virtual_after, virtual_after_force, virtual_after_other,
}
use virtual_force.Main.Sharing.{
  Turn, executes, reports, reconnects, core_takes, core_news, Shared, turn, turns,
}
use virtual_force.Main.Sharing.Apart.{commanded, reported, report_turn, changed-is_set}

-- the force that a region holds for the core, if any
pub waiting : ForceVirtualCmd → List Axes
waiting v = if v.valid == 0 then [] else v.force ∷ []

-- what the core finds in the region when it takes a turn
abbrev pub takes : Turn → Option ForceVirtualCmd → List Axes
takes (core_takes f g) (some v) = waiting v
takes (core_takes f g) none = []
takes (executes c) o = []
takes (reports n) o = []
takes reconnects o = []
takes (core_news f) o = []

-- The forces that the core takes, in the order in which it does.
unfoldable pub taken_by : Net → List Turn → Shared → List Axes
taken_by net [] w = []
taken_by net (t ∷ ts) w =
    takes t w.force.virtual_info ++ elim (turn net t w) [ none ↦ [] | some w' ↦ taken_by net ts w' ]

-- The forces that the PC sends, those of a stop included.
pub forces : List Turn → List Axes
forces [] = []
forces (executes c ∷ ts) = if gives_force c.cmd then c.params ∷ forces ts else forces ts
forces (reports n ∷ ts) = forces ts
forces (reconnects ∷ ts) = forces ts
forces (core_takes f g ∷ ts) = forces ts
forces (core_news f ∷ ts) = forces ts

-- Between two forces the core takes a turn, in which it empties the region; `true` if a force may wait.
abbrev pub InTime : Bool → List Turn → Type 0
InTime b [] = Unit {0}
InTime false (executes c ∷ ts) = InTime (gives_force c.cmd) ts
InTime true (executes c ∷ ts) = (gives_force c.cmd ≡ false) × InTime true ts
InTime b (core_takes f g ∷ ts) = ((v : ForceVirtualCmd) → (g v).valid ≡ 0) × InTime false ts
InTime b (reports n ∷ ts) = InTime b ts
InTime b (reconnects ∷ ts) = InTime b ts
InTime b (core_news f ∷ ts) = InTime b ts

-- the region for forces after a turn
after : Turn → ForceVirtualCmd → ForceVirtualCmd
after (executes c) v = virtual_after c v
after (core_takes f g) v = g v
after (reports n) v = v
after reconnects v = v
after (core_news f) v = v

-- Any turn goes well when the pointers are set.
turn_lem :
    (net : Net) (t : Turn) (w : Shared) {v : ForceVirtualCmd}
    → Ready w.force
    → w.force.virtual_info ≡ some v
    → (w1 : Shared) × (turn net t w ≡ some w1)
      × Ready w1.force
      × (w1.force.virtual_info ≡ some (after t v))
unfolding turn after
turn_lem net (executes c) w {v} r e =
    let (x, ex) = value_of w.force.service_info r.service in
    (
      commanded c x v w,
      rw (dispatch_lem c w.force ex e, turn) refl,
      record { service = refl; monitor = r.monitor; virtual = refl },
      refl,
    )
turn_lem net (reports n) w r e =
    let (x, ex) = value_of w.force.monitor_info r.monitor in
    elim (Bool-cases w.child_runs) [
      | inr off ↦ (w, rw off refl, r, e)
      | inl on ↦ (
        reported (n == established) x w,
        report_turn net n w ex on,
        record { service = r.service; monitor = refl; virtual = r.virtual },
        e,
      )
    ]
turn_lem net reconnects w r e = (record w { child_runs = true }, refl, r, e)
turn_lem net (core_takes f g) w {v} r e = (
  _,
  refl,
  record {
    service = changed-is_set f w.force.service_info r.service;
    monitor = r.monitor;
    virtual = changed-is_set g w.force.virtual_info r.virtual;
  },
  ap (changed g) e,
)
turn_lem net (core_news f) w r e = (
  _,
  refl,
  record {
    service = r.service;
    monitor = changed-is_set f w.force.monitor_info r.monitor;
    virtual = r.virtual;
  },
  e,
)

taken_by-step :
    (net : Net) (t : Turn) (ts : List Turn) (w : Shared) {w1 : Shared}
    → turn net t w ≡ some w1
    → taken_by net (t ∷ ts) w ≡ takes t w.force.virtual_info ++ taken_by net ts w1
unfolding taken_by
taken_by-step net t ts w e = rw e refl

waiting_empty : (v : ForceVirtualCmd) → v.valid ≡ 0 → waiting v ≡ []
unfolding waiting
waiting_empty v e = ground arith

waiting_force : (a : Axes) → waiting (record { valid = dead_beef; force = a }) ≡ a ∷ []
unfolding waiting
waiting_force a = refl

-- In time, a turn takes from the forces that wait and that are still to come, in front, what the core
-- takes in it.
InTime-step :
    (b : Bool) (t : Turn) (ts : List Turn) (v : ForceVirtualCmd)
    → (b ≡ false → v.valid ≡ 0)
    → InTime b (t ∷ ts)
    → (b' : Bool) × (b' ≡ false → (after t v).valid ≡ 0)
      × InTime b' ts
      × (takes t (some v) ++ (waiting (after t v) ++ forces ts) ≡ waiting v ++ forces (t ∷ ts))
unfolding after forces
InTime-step false (executes c) ts v h k = elim (Bool-cases (gives_force c.cmd)) [
  | inl gives ↦ (
    gives_force c.cmd,
    λ other. absurd (let q = sym gives ∙ other in cc),
    k,
    rw
        (
          virtual_after_force c v gives (h refl),
          waiting_force c.params,
          waiting_empty v (h refl),
          gives,
        )
        refl,
  )
  | inr other ↦ (
    false,
    λ e. rw (virtual_after_other c v other) (h refl),
    rw other at k,
    rw (virtual_after_other c v other, other) refl,
  )
]
InTime-step true (executes c) ts v h k =
    (true, λ e. absurd (let q = e in cc), k.1, rw (virtual_after_other c v k.0, k.0) refl)
InTime-step b (core_takes f g) ts v h k =
    (false, λ e. k.0 v, k.1, rw (waiting_empty (g v) (k.0 v)) refl)
InTime-step b (reports n) ts v h k = (b, h, k, refl)
InTime-step b reconnects ts v h k = (b, h, k, refl)
InTime-step b (core_news f) ts v h k = (b, h, k, refl)

all_taken :
    (net : Net) (b : Bool) (ts : List Turn) (last : Turn) (w : Shared) {v : ForceVirtualCmd}
    → ((o : Option ForceVirtualCmd) (u : ForceVirtualCmd) → o ≡ some u → takes last o ≡ waiting u)
    → (b ≡ false → v.valid ≡ 0)
    → InTime b ts
    → Ready w.force
    → w.force.virtual_info ≡ some v
    → (w' : Shared) × (turns net (ts ++ (last ∷ [])) w ≡ some w')
      × (taken_by net (ts ++ (last ∷ [])) w ≡ waiting v ++ forces ts)
unfolding turns forces taken_by
all_taken net b [] last w {v} l h k r e =
    let (w1, e1, r1, v1) = turn_lem net last w r e in
    (
      w1,
      rw (e1, turns) refl,
      taken_by-step net last [] w e1 ∙ ap (λ (x : List Axes). x ++ []) (l w.force.virtual_info v e),
    )
all_taken net b (t ∷ ts) last w {v} l h k r e =
    let (w1, e1, r1, v1) = turn_lem net t w r e in
    let (b', h', k', eq) = InTime-step b t ts v h k in
    let (w', e2, same) = all_taken net b' ts last w1 l h' k' r1 v1 in
    (w', rw (e1, turns) e2, taken_by-step net t (ts ++ (last ∷ [])) w e1 ∙ rw (e, same) eq)

-- Every force arrives: whatever the parent, the child, new connections and the force core do in turn,
-- when the pointers are set, the region for forces is empty at first, and the core takes a turn that
-- empties the region between any two forces of the PC, then nobody faults, and when the core has taken
-- its next turn it has taken all the forces that the PC sent, those of a stop included, each once and
-- in their order.
pub every_force_taken :
    (net : Net) (ts : List Turn) (w : Shared) (f : ServoCoreProcessCall → ServoCoreProcessCall)
    (g : ForceVirtualCmd → ForceVirtualCmd) {v : ForceVirtualCmd}
    → Ready w.force
    → w.force.virtual_info ≡ some v
    → v.valid ≡ 0
    → InTime false ts
    → (w' : Shared) × (turns net (ts ++ (core_takes f g ∷ [])) w ≡ some w')
      × (taken_by net (ts ++ (core_takes f g ∷ [])) w ≡ forces ts)
every_force_taken net ts w f g {v} r e empty k =
    let (w', e', same) =
      all_taken net false ts (core_takes f g) w (λ o u h. rw h refl) (λ _. empty) k r e in
    (w', e', same ∙ rw (waiting_empty v empty) refl)
