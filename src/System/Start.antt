-- ===== src/System/Start.antt =====
-- The whole program once `main` has come to its loop and the window has been made.
use virtual_force.Prelude.{ℕ, true, ◌≡◌, refl, sym, arith, Option, none, some, [], value_of}
use virtual_force.Force.Regions.{ForceMonitor}
use virtual_force.Mmap.{Mapped, mmap_init, servo_force_comm_init, Contents, MmapComm}
use virtual_force.Network.{Connected, network_init, no_net, Fork}
use virtual_force.Main.{Boot, boot, Parent, running}
use virtual_force.Main.Rounds.{Steady}
use virtual_force.Main.Commands.{running-force}
use virtual_force.Main.Safety.{boot-IsSafe}
use virtual_force.Pc.Widget.{widget}
use virtual_force.System.{System, Link, IsNews}
use virtual_force.System.Sound.{IsSound}

-- The window with the connection that `main` has accepted, the parent and its child, and nothing under way.
abbrev pub started : Parent → System
started p = record {
  window = widget;
  link = Link.up;
  queued = [];
  to_controller = [];
  parent = p;
  child_runs = true;
  to_window = [];
}

-- The region for news is the memory behind the page that was mapped for it.
init-HasNews :
    (pages : MmapComm) (c : Contents) {r : ForceMonitor}
    → ((a : ℕ) → IsNews (c.monitor a))
    → (servo_force_comm_init pages c).monitor_info ≡ some r
    → IsNews r
unfolding servo_force_comm_init
init-HasNews pages c {r} news e = go pages.monitor_ptr refl
  where
    go : (o : Option ℕ) → pages.monitor_ptr ≡ o → IsNews r
    go none k = absurd (let q = rw k at e in cc)
    go (some a) k =
        let q : ◌≡◌ {A = Option ForceMonitor} (some (c.monitor a)) (some r) = rw k at e in
        let same : c.monitor a ≡ r = cc in rw same at (news a)

boot_force :
    (b : Boot) {p : Parent}
    → boot b ≡ running p
    → (pages : MmapComm) × (p.force ≡ servo_force_comm_init pages b.contents)
unfolding boot
boot_force b {p} h =
    go (mmap_init b.opened b.mmap) refl (network_init b.sockets no_net) refl b.fork refl
  where
    go :
        (m : Mapped)
        → mmap_init b.opened b.mmap ≡ m
        → (c : Connected) → network_init b.sockets no_net ≡ c
        → (f : Fork) → b.fork ≡ f
        → (pages : MmapComm) × (p.force ≡ servo_force_comm_init pages b.contents)
    go (Mapped.exits u) e c e' f e'' = absurd (let q = rw (e, boot) at h in cc)
    go (Mapped.mapped pages) e (Connected.exits k) e' f e'' =
        absurd (let q = rw (e, boot, e') at h in cc)
    go (Mapped.mapped pages) e (Connected.connected n) e' Fork.child e'' =
        absurd (let q = rw (e, boot, e', e'') at h in cc)
    go (Mapped.mapped pages) e (Connected.connected n) e' Fork.fork_error e'' =
        absurd (let q = rw (e, boot, e', e'') at h in cc)
    go (Mapped.mapped pages) e (Connected.connected n) e' (Fork.parent k) e'' =
        (pages, sym (running-force (rw (e, boot, e', e'') at h)))

-- The program starts in a sound state, if what the force core has written is news or is none.
pub started-IsSound :
    (b : Boot) {p : Parent}
    → boot b ≡ running p
    → ((a : ℕ) → IsNews (b.contents.monitor a))
    → IsSound (started p)
unfolding widget
started-IsSound b {p} h news =
    let steady : Steady p = rw h at (boot-IsSafe b) in
    let (pages, same) = boot_force b h in
    let (r, e) = value_of p.force.monitor_info steady.ready.monitor in
    record {
      steady = steady;
      news = (r, e, init-HasNews pages b.contents news (rw same at e));
      window_known = omega arith;
      reports_known = tt;
    }
