-- ===== src/System/Events.antt =====
-- The events of the window in the whole program, as acts of its specification.
use virtual_force.Prelude.{
  ◌<◌, ◌≡◌, refl, sym, ◌∙◌, true, false, some, List, [], ◌∷◌, ◌++◌, map, inl, inr, Option,
}
use mathlib.Core.List.{map-append, append-nil}
use virtual_force.Network.{Fread}
use virtual_force.Pc.Messages.{clicks, arriving, read_of, handle-arriving}
use virtual_force.Pc.Latest.{timeout-Shows}
use virtual_force.Pc.Comm.{state_name}
use virtual_force.Pc.Widget.{
  Qt, Widget, SocketCall, Form, Button, Event, timeout, ready_read, connected, disconnected,
  pressed, connect_clicked, disconnect_clicked, handle, connected_slot, disconnected_slot,
  on_btn_connect_clicked, on_btn_disconnect_clicked,
}
use virtual_force.System.{System, Link, may_come, link_after, queue_after, on_its_way, waits}
use virtual_force.System.Spec.{Spec, wants, ends, asks, waits_for, shows, axes_of}
use virtual_force.System.Stands.{Stands, Follows}

-- The window holds and shows the same.
record ShowsSame (w w' : Widget) : Type 0 where
  held : w'.rcv_msg ≡ w.rcv_msg
  state : w'.lab_force_state ≡ w.lab_force_state
  axes : w'.theta_axes ≡ w.theta_axes

module _ (qt : Qt) where
  -- An event changes the connection and what waits or is under way, and not what is shown.
  window-Stands :
      (a : Spec) (s : System) (w : Widget) (l : Link) (q k : List (Form × Button))
      (waiting going : List Fread)
      → waiting ≡ map (read_of qt) q
      → going ≡ map (read_of qt) k
      → ShowsSame s.window w
      → Stands qt a s
      → Stands qt
          (record a { link = l; queued = q; asked = k })
          (record s { window = w; link = l; queued = waiting; to_controller = going })
  window-Stands a s w l q k waiting going eq ek same d = record {
    link_at = refl;
    queued_at = eq;
    asked_at = ek;
    regions_at = d.regions_at;
    news_at = d.news_at;
    held_at = same.held ∙ d.held_at;
    state_at = same.state ∙ d.state_at;
    axes_at = same.axes ∙ d.axes_at;
  }

  -- What an event that is no click leaves waiting and under way.
  none_sent :
      (l : Link) (x : List Fread) {sent : List Fread} → sent ≡ [] → x ++ on_its_way l sent ≡ x
  none_sent Link.down x e = append-nil x
  none_sent Link.waiting x e = append-nil x
  none_sent Link.up x e = rw e (append-nil x)

  none_waits : (l : Link) (x : List Fread) {sent : List Fread} → sent ≡ [] → x ++ waits l sent ≡ x
  none_waits Link.down x e = append-nil x
  none_waits Link.waiting x e = rw e (append-nil x)
  none_waits Link.up x e = append-nil x

  -- An event that changes nothing but the buttons and the text for the connection.
  quiet-Follows :
      (a : Spec) (s : System) (e : Event) (w : Widget) (calls : List SocketCall)
      → handle qt e s.window ≡ some (w, calls)
      → clicks (e ∷ []) ≡ []
      → ShowsSame s.window w
      → Stands qt a s
      → Follows qt a (record s {
        window = w;
        queued = s.queued ++ waits s.link (arriving calls);
        to_controller = s.to_controller ++ on_its_way s.link (arriving calls);
      })
  quiet-Follows a s e w calls h no_click same d =
      let sent : arriving calls ≡ [] = rw no_click at (handle-arriving qt e s.window h) in
      inl (
        rw d.link_at (
          window-Stands a s w a.link a.queued a.asked _ _
            (none_waits a.link s.queued sent ∙ d.queued_at)
            (none_sent a.link s.to_controller sent ∙ d.asked_at) same d))

  -- The end of the connection.
  ends-Follows :
      (a : Spec) (s : System) (e : Event) (w : Widget) (calls : List SocketCall)
      → handle qt e s.window ≡ some (w, calls)
      → clicks (e ∷ []) ≡ []
      → ShowsSame s.window w
      → Stands qt a s
      → Follows qt a (record s {
        window = w;
        link = Link.down;
        queued = [];
        to_controller = s.to_controller ++ on_its_way s.link (arriving calls);
      })
  ends-Follows a s e w calls h no_click same d =
      let sent : arriving calls ≡ [] = rw no_click at (handle-arriving qt e s.window h) in
      inr (
        _,
        ends,
        window-Stands a s w Link.down [] a.asked [] _ refl
            (none_sent s.link s.to_controller sent ∙ d.asked_at) same d,
      )

  -- A click on `connect` wants a connection, if there is none.
  wants-Follows :
      (a : Spec) (s : System) (w : Widget) (calls : List SocketCall) (l : Link)
      → s.link ≡ l
      → handle qt connect_clicked s.window ≡ some (w, calls)
      → ShowsSame s.window w
      → Stands qt a s
      → Follows qt a (record s {
        window = w;
        link = link_after l connect_clicked;
        queued = s.queued ++ waits l (arriving calls);
        to_controller = s.to_controller ++ on_its_way l (arriving calls);
      })
  unfolding clicks
  wants-Follows a s w calls Link.down at h same d =
      let sent = handle-arriving qt connect_clicked s.window h in
      inr (
        _,
        wants (sym d.link_at ∙ at),
        window-Stands a s w Link.waiting a.queued a.asked _ _
            (none_waits Link.down s.queued sent ∙ d.queued_at)
            (none_sent Link.down s.to_controller sent ∙ d.asked_at) same d,
      )
  wants-Follows a s w calls Link.waiting at h same d =
      rw at at (quiet-Follows a s connect_clicked w calls h refl same d)
  wants-Follows a s w calls Link.up at h same d =
      rw at at (quiet-Follows a s connect_clicked w calls h refl same d)

  -- A click on a button for the controller, with each state of the connection.
  pressed-Follows :
      (a : Spec) (s : System) (f : Form) (b : Button) (w : Widget) (calls : List SocketCall)
      (l : Link)
      → s.link ≡ l
      → handle qt (pressed f b) s.window ≡ some (w, calls)
      → ShowsSame s.window w
      → Stands qt a s
      → Follows qt a (record s {
        window = w;
        link = l;
        queued = s.queued ++ waits l (arriving calls);
        to_controller = s.to_controller ++ on_its_way l (arriving calls);
      })
  unfolding clicks
  pressed-Follows a s f b w calls l at h same d = go l at
    where
      sent : arriving calls ≡ map (read_of qt) ((f, b) ∷ [])
      sent = handle-arriving qt (pressed f b) s.window h

      go :
          (k : Link)
          → s.link ≡ k
          → Follows qt a (record s {
            window = w;
            link = k;
            queued = s.queued ++ waits k (arriving calls);
            to_controller = s.to_controller ++ on_its_way k (arriving calls);
          })
      go Link.down e = inl (
          rw (sym e, d.link_at)
            (window-Stands a s w a.link a.queued a.asked _ _ (append-nil s.queued ∙ d.queued_at)
              (append-nil s.to_controller ∙ d.asked_at) same d))
      go Link.waiting e = inr (
        record a { link = Link.waiting; queued = a.queued ++ ((f, b) ∷ []) },
        rw (sym e, d.link_at) (waits_for (f, b) (sym d.link_at ∙ e)),
        window-Stands a s w Link.waiting (a.queued ++ ((f, b) ∷ [])) a.asked _ _
            (rw (sent, d.queued_at) (sym (map-append (read_of qt) a.queued ((f, b) ∷ []))))
            (append-nil s.to_controller ∙ d.asked_at) same d,
      )
      go Link.up e = inr (
        record a { link = Link.up; asked = a.asked ++ ((f, b) ∷ []) },
        rw (sym e, d.link_at) (asks (f, b) (sym d.link_at ∙ e)),
        window-Stands a s w Link.up a.queued (a.asked ++ ((f, b) ∷ [])) _ _
            (append-nil s.queued ∙ d.queued_at)
            (rw (sent, d.asked_at) (sym (map-append (read_of qt) a.asked ((f, b) ∷ [])))) same d,
      )

  -- The timeout shows what the window holds.
  pub timeout-Stands :
      (a : Spec) (s : System) (w : Widget) (calls : List SocketCall)
      → handle qt timeout s.window ≡ some (w, calls)
      → s.window.rcv_msg.force_state < 6
      → Stands qt a s
      → (state_name a.held.force_state ≡ some w.lab_force_state)
        × Stands qt
            (record a { state_text = w.lab_force_state; axes_texts = axes_of qt a.held })
            (record s {
              window = w;
              queued = s.queued ++ waits s.link (arriving calls);
              to_controller = s.to_controller ++ on_its_way s.link (arriving calls);
            })
  unfolding clicks
  timeout-Stands a s w calls h known d =
      let (w1, e1, shown) = timeout-Shows qt s.window known in
      let q : ◌≡◌ {A = Option (Widget × List SocketCall)} (some (w, calls)) (some (w1, [])) =
        sym h ∙ e1 in
      let same : w ≡ w1 = cc in
      let sent = handle-arriving qt timeout s.window h in
      (
        rw (same, sym d.held_at) shown.state_shown,
        record {
          link_at = d.link_at;
          queued_at = none_waits s.link s.queued sent ∙ d.queued_at;
          asked_at = none_sent s.link s.to_controller sent ∙ d.asked_at;
          regions_at = d.regions_at;
          news_at = d.news_at;
          held_at = (rw same shown.held) ∙ d.held_at;
          state_at = refl;
          axes_at = rw (same, sym d.held_at) shown.axes_shown;
        },
      )

  -- An event of the user, the timer or the connection is an act, or none.
  pub user-Follows :
      (a : Spec) (s : System) (e : Event) (w : Widget) (calls : List SocketCall)
      → may_come s.link e ≡ true
      → handle qt e s.window ≡ some (w, calls)
      → s.window.rcv_msg.force_state < 6
      → Stands qt a s
      → Follows qt a (record s {
        window = w;
        link = link_after s.link e;
        queued = queue_after e (s.queued ++ waits s.link (arriving calls));
        to_controller = s.to_controller ++ on_its_way s.link (arriving calls);
      })
  unfolding handle clicks connected_slot disconnected_slot on_btn_connect_clicked
      on_btn_disconnect_clicked
  user-Follows a s timeout w calls own h known d =
      let (named, stands) = timeout-Stands a s w calls h known d in
      inr (_, shows w.lab_force_state named, stands)
  user-Follows a s (ready_read m n) w calls own h known d = absurd (let q = own in cc)
  user-Follows a s connected w calls own h known d =
      let e : w ≡ connected_slot s.window = cc in
      quiet-Follows a s connected w calls h refl
        (rw e (record { held = refl; state = refl; axes = refl })) d
  user-Follows a s disconnected w calls own h known d =
      let e : w ≡ disconnected_slot s.window = cc in
      ends-Follows a s disconnected w calls h refl
        (rw e (record { held = refl; state = refl; axes = refl })) d
  user-Follows a s (pressed f b) w calls own h known d =
      let e : w ≡ s.window = cc in
      pressed-Follows a s f b w calls s.link refl h
        (rw e (record { held = refl; state = refl; axes = refl })) d
  user-Follows a s connect_clicked w calls own h known d =
      let e : w ≡ s.window = cc in
      wants-Follows a s w calls s.link refl h
        (rw e (record { held = refl; state = refl; axes = refl })) d
  user-Follows a s (disconnect_clicked true) w calls own h known d =
      let e : w ≡ (on_btn_disconnect_clicked qt true s.window).0 = cc in
      ends-Follows a s (disconnect_clicked true) w calls h refl
        (rw e (record { held = refl; state = refl; axes = refl })) d
  user-Follows a s (disconnect_clicked false) w calls own h known d =
      let e : w ≡ (on_btn_disconnect_clicked qt false s.window).0 = cc in
      quiet-Follows a s (disconnect_clicked false) w calls h refl
        (rw e (record { held = refl; state = refl; axes = refl })) d
