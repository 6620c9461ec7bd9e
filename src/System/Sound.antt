-- ===== src/System/Sound.antt =====
-- The states of the whole program in which nobody faults, and their steps.
use virtual_force.Prelude.{
  ℕ, ◌<◌, ◌≡◌, ◌≢◌, ◌==◌, false, refl, sym, ap, ◌∙◌, arith, true, Option, some, List, [], ◌∷◌, ◌++◌,
  changed, value_of,
}
use virtual_force.Memory.{Mem}
use virtual_force.Wire.{PcCommCmd, load_data, data_size}
use virtual_force.Force.Regions.{ServoCoreProcessCall, ForceVirtualCmd, ForceMonitor, Interface}
use virtual_force.Mmap.Ready.{Ready}
use virtual_force.Network.{Receive, Net, Call, close, established}
use virtual_force.Network.Sending.{Sent}
use virtual_force.Controller.Dispatch.{dispatch_lem}
use virtual_force.Controller.{dispatch, controller_display_res}
use virtual_force.Controller.Report.{
  report, report-known, taken, taken-known, taken-Fits, display_lem,
}
use virtual_force.Main.{round, Parent, running}
use virtual_force.Main.Safety.{round-IsSafe}
use virtual_force.Main.Commands.{arrived, round_idle}
use virtual_force.Main.Rounds.{Steady}
use virtual_force.Main.Sharing.Apart.{changed-is_set}
use virtual_force.Pc.Widget.{
  Qt, Widget, SocketCall, Event, timeout, ready_read, connected, disconnected, pressed,
  connect_clicked, disconnect_clicked, handle,
}
use virtual_force.Pc.Latest.{KnownStates, latest-known, handle-latest}
use virtual_force.System.{System, Link, may_come, IsNews, with_force_regions}

-- a report with one of the six states
abbrev pub AreKnown : List Mem → Type 0
AreKnown [] = Unit {0}
AreKnown (m ∷ ms) = ((load_data m).force_state < 6) × AreKnown ms

pub AreKnown-append : (a b : List Mem) → AreKnown a → AreKnown b → AreKnown (a ++ b)
AreKnown-append [] b h k = k
AreKnown-append (m ∷ a) b h k = (h.0, AreKnown-append a b h.1 k)

pub AreKnown-behind : (a b : List Mem) → AreKnown (a ++ b) → AreKnown b
AreKnown-behind [] b h = h
AreKnown-behind (m ∷ a) b h = AreKnown-behind a b h.1

-- The region for news is there, and holds what the force core may write.
abbrev pub HasNews : Option ForceMonitor → Type 0
HasNews o = (r : ForceMonitor) × (o ≡ some r) × IsNews r

-- The parent is between two rounds, and every state under way to the window has a name.
pub record IsSound (s : System) : Type 0 where
  pub steady : Steady s.parent
  pub news : HasNews s.parent.force.monitor_info
  pub window_known : s.window.rcv_msg.force_state < 6
  pub reports_known : AreKnown s.to_window

pub same_parent : {p q : Parent} → running p ≡ running q → p ≡ q
same_parent e = cc

-- A command that is executed does not touch the news.
pub dispatch-news :
    (c : PcCommCmd) (s : Interface) {s' : Interface}
    → Ready s
    → dispatch c s ≡ some s'
    → s'.monitor_info ≡ s.monitor_info
dispatch-news c s r d =
    let (x, ex) = value_of s.service_info r.service in
    let (y, ey) = value_of s.virtual_info r.virtual in
    let q = sym (dispatch_lem c s ex ey) ∙ d in ground arith

module _ (qt : Qt) where
  pub user-KnownStates : (e : Event) (l : Link) → may_come l e ≡ true → KnownStates (e ∷ [])
  user-KnownStates timeout l h = tt
  user-KnownStates (ready_read m n) l h = absurd (let q = h in cc)
  user-KnownStates connected l h = tt
  user-KnownStates disconnected l h = tt
  user-KnownStates (pressed f b) l h = tt
  user-KnownStates connect_clicked l h = tt
  user-KnownStates (disconnect_clicked c) l h = tt

  -- The window keeps a report with a known state.
  pub handle-known :
      (e : Event) (w : Widget) {w' : Widget} {calls : List SocketCall}
      → handle qt e w ≡ some (w', calls)
      → KnownStates (e ∷ [])
      → w.rcv_msg.force_state < 6
      → w'.rcv_msg.force_state < 6
  handle-known e w h k known = rw (handle-latest qt e w h) (latest-known (e ∷ []) w.rcv_msg known k)

  -- What the child sends is the report of the region, and the region is marked as taken.
  pub reports_tell :
      (net : Net) (s : Interface) (m : Mem) (n : ℕ) (f : Interface) {r : ForceMonitor}
      → s.monitor_info ≡ some r
      → IsNews r
      → controller_display_res established net s ≡ some (Sent.sent m n, f)
      → (load_data m ≡ report r) × (f ≡ record s { monitor_info = some (taken r) })
  reports_tell net s m n f {r} e news h =
      let (m', sends, loads) =
        display_lem established net s e (omega (arith, news.known)) news.fits in
      let q : ◌≡◌ {A = Option (Sent × Interface)} (some (Sent.sent m n, f))
          (some (Sent.sent m' data_size, record s { monitor_info = some (taken r) })) =
        sym h ∙ sends in
      let same : m ≡ m' = cc in (rw (same, loads) refl, cc)

  taken-IsSound :
      (p : Parent) (f : Interface) {r : ForceMonitor}
      → Steady p
      → IsNews r
      → f ≡ record (p.force) { monitor_info = some (taken r) }
      → Steady (record p { force = f }) × HasNews f.monitor_info
  taken-IsSound p f {r} v news after = (
    rw after (record {
      idle = v.idle;
      element_length_at = v.element_length_at;
      buff_length_at = v.buff_length_at;
      ready = record { service = v.ready.service; monitor = refl; virtual = v.ready.virtual };
    }),
    (
      taken r,
      rw after refl,
      record { known = taken-known r news.known; fits = taken-Fits r news.fits },
    ),
  )

  pub reports-IsSound :
      (net : Net) (s : System) (m : Mem) (n : ℕ) (f : Interface)
      → IsSound s
      → controller_display_res established net s.parent.force ≡ some (Sent.sent m n, f)
      → Steady (record (s.parent) { force = f })
        × HasNews f.monitor_info
        × ((load_data m).force_state < 6)
  reports-IsSound net s m n f v h =
      let (r, e, news) = v.news in
      let (loads, after) = reports_tell net s.parent.force m n f e news h in
      let (steady, has_news) = taken-IsSound s.parent f v.steady news after in
      (steady, has_news, rw loads (report-known r news.known))

  -- A round without a command keeps the parent steady and the news.
  pub idle-IsSound :
      (os : Receive) (s : System) (p : Parent)
      → IsSound s
      → arrived os ≡ []
      → round os s.parent ≡ running p
      → Steady p × HasNews p.force.monitor_info
  idle-IsSound os s p v none_came h = (
    rw h at (round-IsSafe os s.parent v.steady),
    rw (round_idle os s.parent v.steady none_came h) v.news,
  )

  -- A child that ends has marked the news as taken.
  pub quiet_tells :
      (tcpi_state : ℕ) (net : Net) (s : Interface) (c : Call) (f : Interface) {r : ForceMonitor}
      → s.monitor_info ≡ some r
      → IsNews r
      → tcpi_state ≢ established
      → controller_display_res tcpi_state net s ≡ some (Sent.exits c, f)
      → f ≡ record s { monitor_info = some (taken r) }
  quiet_tells tcpi_state net s c f {r} e news off h =
      let (m', sends, loads) =
        display_lem tcpi_state net s e (omega (arith, news.known)) news.fits in
      let no_link : (tcpi_state == established) ≡ false = ground arith in
      let q : ◌≡◌ {A = Option (Sent × Interface)} (some (Sent.exits c, f))
          (some (Sent.exits (close net.fd), record s { monitor_info = some (taken r) })) =
        sym h ∙ (rw no_link at sends) in
      cc

  pub quiet-IsSound :
      (tcpi_state : ℕ) (net : Net) (s : System) (c : Call) (f : Interface)
      → IsSound s
      → tcpi_state ≢ established
      → controller_display_res tcpi_state net s.parent.force ≡ some (Sent.exits c, f)
      → Steady (record (s.parent) { force = f }) × HasNews f.monitor_info
  quiet-IsSound tcpi_state net s c f v off h =
      let (r, e, news) = v.news in
      taken-IsSound s.parent f v.steady news
        (quiet_tells tcpi_state net s.parent.force c f e news off h)

  pub core-IsSound :
      (f : ServoCoreProcessCall → ServoCoreProcessCall) (g : ForceVirtualCmd → ForceVirtualCmd)
      (k : ForceMonitor → ForceMonitor) (p : Parent)
      → ((r : ForceMonitor) → IsNews r → IsNews (k r))
      → Steady p
      → HasNews p.force.monitor_info
      → Steady (record p { force = with_force_regions f g k p.force })
        × HasNews (changed k p.force.monitor_info)
  core-IsSound f g k p keep v (r, e, news) = (
    record {
      idle = v.idle;
      element_length_at = v.element_length_at;
      buff_length_at = v.buff_length_at;
      ready = record {
        service = changed-is_set f p.force.service_info v.ready.service;
        monitor = changed-is_set k p.force.monitor_info v.ready.monitor;
        virtual = changed-is_set g p.force.virtual_info v.ready.virtual;
      };
    },
    (k r, ap (changed k) e, keep r news),
  )
