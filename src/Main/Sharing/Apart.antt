-- ===== src/Main/Sharing/Apart.antt =====
-- The commands and the reports of main.c, each without the other.
use virtual_force.Prelude.{
  ℕ, ◌≡◌, refl, arith, Bool, true, false, Bool-cases, Option, none, some, List, [], ◌∷◌, ◌++◌,
  if◌then◌else◌, is_set, changed, value_of, inl, inr, ◌==◌,
}
use virtual_force.Wire.{PcCommCmd, store_data}
use virtual_force.Force.Regions.{ServoCoreProcessCall, ForceVirtualCmd, ForceMonitor}
use virtual_force.Network.{Net, established}
use virtual_force.Network.Sending.{network_set}
use virtual_force.Mmap.Ready.{Ready}
use virtual_force.Controller.{controller_display_res}
use virtual_force.Controller.Dispatch.{dispatch_lem, service_after, virtual_after, downloads_after}
use virtual_force.Controller.Report.{report, taken, upload_lem}
use virtual_force.Main.Sharing.{
  Turn, executes, reports, reconnects, core_takes, core_news, Shared, turn, turns,
}

-- the turns that touch the regions for commands, and those that touch the region for news
unfoldable pub for_commands : List Turn → List Turn
for_commands [] = []
for_commands (executes c ∷ ts) = executes c ∷ for_commands ts
for_commands (core_takes f g ∷ ts) = core_takes f g ∷ for_commands ts
for_commands (reports n ∷ ts) = for_commands ts
for_commands (core_news f ∷ ts) = for_commands ts
for_commands (reconnects ∷ ts) = for_commands ts

unfoldable pub for_reports : List Turn → List Turn
for_reports [] = []
for_reports (executes c ∷ ts) = for_reports ts
for_reports (core_takes f g ∷ ts) = for_reports ts
for_reports (reports n ∷ ts) = reports n ∷ for_reports ts
for_reports (core_news f ∷ ts) = core_news f ∷ for_reports ts
for_reports (reconnects ∷ ts) = reconnects ∷ for_reports ts

-- The news and the child of `b`, all else of `a`.
abbrev pub join : Shared → Shared → Shared
join a b = record b { force = record (a.force) { monitor_info = b.force.monitor_info } }

-- the state after a command, and after a report
abbrev pub commanded : PcCommCmd → ServoCoreProcessCall → ForceVirtualCmd → Shared → Shared
commanded c x y a = record a {
  force = record (a.force) {
    service_info = some (service_after c x);
    virtual_info = some (virtual_after c y);
    downloads = downloads_after c y a.force.downloads;
  };
}

abbrev pub reported : Bool → ForceMonitor → Shared → Shared
reported up x b = record b {
  sent_to_pc = (if up then b.sent_to_pc ++ store_data (report x) ∷ [] else b.sent_to_pc);
  child_runs = (if up then b.child_runs else false);
  force = record (b.force) { monitor_info = some (taken x) };
}

turn_command :
    (net : Net) (c : PcCommCmd) (a b : Shared)
    → Ready a.force
    → (a' : Shared) × (turn net (executes c) a ≡ some a')
      × (turn net (executes c) (join a b) ≡ some (join a' b))
      × Ready a'.force
unfolding turn
turn_command net c a b r =
    let (x, ex) = value_of a.force.service_info r.service in
    let (y, ey) = value_of a.force.virtual_info r.virtual in
    (
      commanded c x y a,
      rw (dispatch_lem c a.force ex ey, turn) refl,
      rw (dispatch_lem c (join a b).force ex ey, turn) refl,
      record { service = refl; monitor = r.monitor; virtual = refl },
    )

-- a report while the child runs
pub report_turn :
    (net : Net) (n : ℕ) (w : Shared) {x : ForceMonitor}
    → w.force.monitor_info ≡ some x
    → w.child_runs ≡ true
    → turn net (reports n) w ≡ some (reported (n == established) x w)
unfolding turn controller_display_res network_set
report_turn net n w {x} e on = ground (arith, upload_lem w.force e)

turn_report :
    (net : Net) (n : ℕ) (a b : Shared)
    → Ready b.force
    → (b' : Shared) × (turn net (reports n) b ≡ some b')
      × (turn net (reports n) (join a b) ≡ some (join a b'))
      × Ready b'.force
unfolding turn
turn_report net n a b r =
    let (x, ex) = value_of b.force.monitor_info r.monitor in
    elim (Bool-cases b.child_runs) [
      | inr off ↦ (b, rw off refl, rw off refl, r)
      | inl on ↦ (
        reported (n == established) x b,
        report_turn net n b ex on,
        report_turn net n (join a b) ex on,
        record { service = r.service; monitor = refl; virtual = r.virtual },
      )
    ]

pub changed-is_set :
    {A : Type 0} (f : A → A) (o : Option A) → is_set o ≡ true → is_set (changed f o) ≡ true
changed-is_set f none h = h
changed-is_set f (some x) h = h

abbrev taking :
    (ServoCoreProcessCall → ServoCoreProcessCall)
    → (ForceVirtualCmd → ForceVirtualCmd)
    → Shared
    → Shared
taking f g a = record a {
  force = record (a.force) {
    service_info = changed f a.force.service_info;
    virtual_info = changed g a.force.virtual_info;
  };
}

abbrev telling : (ForceMonitor → ForceMonitor) → Shared → Shared
telling f b = record b {
  force = record (b.force) { monitor_info = changed f b.force.monitor_info };
}

-- The two halves of a run, each on its own, and the run.
Apart : Net → List Turn → Shared → Shared → Type 0
Apart net ts a b =
    (a' b' : Shared) × (turns net (for_commands ts) a ≡ some a')
    × (turns net (for_reports ts) b ≡ some b')
    × (turns net ts (join a b) ≡ some (join a' b'))

apart :
    (net : Net) (ts : List Turn) (a b : Shared) → Ready a.force → Ready b.force → Apart net ts a b
unfolding turns for_commands for_reports Apart turn
apart net [] a b ra rb = (a, b, refl, refl, refl)
apart net (executes c ∷ ts) a b ra rb =
    let (a1, e, f, ra1) = turn_command net c a b ra in
    let (a', b', g, h, i) = apart net ts a1 b ra1 rb in
    (a', b', rw (e, turns) g, h, rw (f, turns) i)
apart net (reports n ∷ ts) a b ra rb =
    let (b1, e, f, rb1) = turn_report net n a b rb in
    let (a', b', g, h, i) = apart net ts a b1 ra rb1 in
    (a', b', g, rw (e, turns) h, rw (f, turns) i)
apart net (reconnects ∷ ts) a b ra rb = apart net ts a (record b { child_runs = true }) ra rb
apart net (core_takes f g ∷ ts) a b ra rb =
    apart net ts (taking f g a) b
      (record {
        service = changed-is_set f a.force.service_info ra.service;
        monitor = ra.monitor;
        virtual = changed-is_set g a.force.virtual_info ra.virtual;
      })
      rb
apart net (core_news f ∷ ts) a b ra rb = apart net ts a (telling f b) ra (record {
  service = rb.service;
  monitor = changed-is_set f b.force.monitor_info rb.monitor;
  virtual = rb.virtual;
})

-- The commands of the PC and the reports to it do not disturb each other, in whatever order the
-- parent, its child and the force core take their turns, through any number of new connections, when
-- the pointers are set: the reports that are sent, and the region for news, are those of a run without
-- the commands; all that the commands leave behind is what they leave in a run without the reports;
-- and nobody faults.
pub commands_reports_apart :
    (net : Net) (ts : List Turn) (w : Shared)
    → Ready w.force
    → (a b : Shared) × (turns net (for_commands ts) w ≡ some a)
      × (turns net (for_reports ts) w ≡ some b)
      × (turns net ts w
          ≡ some (record b { force = record (a.force) { monitor_info = b.force.monitor_info } }))
unfolding Apart
commands_reports_apart net ts w r = apart net ts w w r r
