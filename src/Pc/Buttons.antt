-- ===== src/Pc/Buttons.antt =====
-- Which of the two buttons for the connection the window of SimForce_Qt/widget.cpp leaves enabled.
use virtual_force.Prelude.{◌≡◌, refl, arith, Bool, true, false, Option, none, some, List, [], ◌∷◌}
use virtual_force.Pc.Runs.{handle_all-cons}
use virtual_force.Pc.Widget.{
  Qt, Widget, SocketCall, Event, timeout, ready_read, connected, disconnected, pressed,
  connect_clicked, disconnect_clicked, handle, handle_all, widget, update_show, update_monitor,
  connected_slot, disconnected_slot, ready_read_slot, on_btn_connect_clicked,
  on_btn_disconnect_clicked,
}

-- What the last event that tells of the connection says: whether there is one. A click on
-- `disconnect` counts as its end.
pub link : List Event → Option Bool → Option Bool
link [] o = o
link (connected ∷ es) o = link es (some true)
link (disconnected ∷ es) o = link es (some false)
link (disconnect_clicked c ∷ es) o = link es (some false)
link (timeout ∷ es) o = link es o
link (ready_read m n ∷ es) o = link es o
link (pressed f b ∷ es) o = link es o
link (connect_clicked ∷ es) o = link es o

-- Both buttons are enabled as long as nothing is known; then one of them, as the connection wants it.
abbrev pub Enabled : Option Bool → Widget → Type 0
Enabled none w = (w.connect_enabled ≡ true) × (w.disconnect_enabled ≡ true)
Enabled (some true) w = (w.connect_enabled ≡ false) × (w.disconnect_enabled ≡ true)
Enabled (some false) w = (w.connect_enabled ≡ true) × (w.disconnect_enabled ≡ false)

-- Neither the display nor the bytes touch the buttons.
Enabled-kept :
    (o : Option Bool) (w w' : Widget)
    → w'.connect_enabled ≡ w.connect_enabled
    → w'.disconnect_enabled ≡ w.disconnect_enabled
    → Enabled o w
    → Enabled o w'
Enabled-kept none w w' c d h = rw (c, d) h
Enabled-kept (some true) w w' c d h = rw (c, d) h
Enabled-kept (some false) w w' c d h = rw (c, d) h

link-cons :
    (e : Event) (es : List Event) (o : Option Bool) → link (e ∷ es) o ≡ link es (link (e ∷ []) o)
unfolding link
link-cons timeout es o = refl
link-cons (ready_read m n) es o = refl
link-cons connected es o = refl
link-cons disconnected es o = refl
link-cons (pressed f b) es o = refl
link-cons connect_clicked es o = refl
link-cons (disconnect_clicked c) es o = refl

module _ (qt : Qt) where
  handle-Enabled :
      (e : Event) (o : Option Bool) (w : Widget) {w' : Widget} {calls : List SocketCall}
      → handle qt e w ≡ some (w', calls)
      → Enabled o w
      → Enabled (link (e ∷ []) o) w'
  unfolding handle link update_show update_monitor connected_slot disconnected_slot ready_read_slot
      on_btn_connect_clicked on_btn_disconnect_clicked
  handle-Enabled timeout o w {w'} h v = Enabled-kept o w w' (ground arith) (ground arith) v
  handle-Enabled (ready_read m n) o w {w'} h v = Enabled-kept o w w' (ground arith) (ground arith) v
  handle-Enabled connected o w h v = (ground arith, ground arith)
  handle-Enabled disconnected o w h v = (ground arith, ground arith)
  handle-Enabled (pressed f b) o w {w'} h v = Enabled-kept o w w' (ground arith) (ground arith) v
  handle-Enabled connect_clicked o w {w'} h v = Enabled-kept o w w' (ground arith) (ground arith) v
  handle-Enabled (disconnect_clicked c) o w h v = (ground arith, ground arith)

  run-Enabled :
      (es : List Event) (o : Option Bool) (w : Widget) {w' : Widget} {calls : List SocketCall}
      → handle_all qt es w ≡ some (w', calls)
      → Enabled o w
      → Enabled (link es o) w'
  unfolding handle_all link
  run-Enabled [] o w {w'} h v = let same : w ≡ w' = ground arith in rw same at v
  run-Enabled (e ∷ es) o w h v =
      let (w1, first, rest, k, l, c) = handle_all-cons qt e es w h in
      rw (link-cons e es o) (run-Enabled es (link (e ∷ []) o) w1 l (handle-Enabled e o w k v))

  -- The buttons for the connection: whatever events the window has handled since it was made, both are
  -- enabled if none of them told of the connection; else `connect` is enabled when the last of those
  -- was its end or a click on `disconnect`, and `disconnect` when it was its begin, so that the user
  -- is never left without one.
  pub buttons_follow_link :
      (es : List Event) {w' : Widget} {calls : List SocketCall}
      → handle_all qt es widget ≡ some (w', calls)
      → Enabled (link es none) w'
  unfolding widget
  buttons_follow_link es h = run-Enabled es none widget h (refl, refl)
