-- ===== src/Pc/Latest.antt =====
-- Which report the window of SimForce_Qt/widget.cpp holds and shows.
use Prim.Native.String.{String}
use virtual_force.Prelude.{
  ℕ, ◌<◌, ◌≡◌, refl, sym, arith, ◌==◌, ◌&&◌, Bool, true, false, none, some, List, [], ◌∷◌, ◌++◌,
  if◌then◌else◌, get_elem?-some, get_elem?-none, ◌≤◌,
}
use virtual_force.Memory.{Mem}
use virtual_force.Wire.{load_data, magig_head, data_size}
use virtual_force.Pc.Comm.{ForceCommRcv, state_str, state_name}
use virtual_force.Pc.Runs.{handle_all-step}
use virtual_force.Pc.Widget.{
  Qt, Widget, SocketCall, Event, timeout, ready_read, connected, disconnected, pressed,
  connect_clicked, disconnect_clicked, handle, handle_all, update_show, update_monitor,
  ready_read_slot,
}

-- The bytes are one report: its head, and its size.
unfoldable pub is_report : Mem → ℕ → Bool
is_report m n = ((load_data m).head == magig_head) && (n == data_size)

-- The last report among the events, or `d` if there is none. Bytes of another size are none, also two
-- reports that are read at once.
unfoldable pub latest : List Event → ForceCommRcv → ForceCommRcv
unfolding is_report
latest [] d = d
latest (ready_read m n ∷ es) d = latest es (if is_report m n then load_data m else d)
latest (timeout ∷ es) d = latest es d
latest (connected ∷ es) d = latest es d
latest (disconnected ∷ es) d = latest es d
latest (pressed f b ∷ es) d = latest es d
latest (connect_clicked ∷ es) d = latest es d
latest (disconnect_clicked c ∷ es) d = latest es d

-- Every report among the events has one of the six states.
abbrev pub KnownStates : List Event → Type 0
KnownStates [] = Unit {0}
KnownStates (ready_read m n ∷ es) =
    (is_report m n ≡ true → (load_data m).force_state < 6) × KnownStates es
KnownStates (timeout ∷ es) = KnownStates es
KnownStates (connected ∷ es) = KnownStates es
KnownStates (disconnected ∷ es) = KnownStates es
KnownStates (pressed f b ∷ es) = KnownStates es
KnownStates (connect_clicked ∷ es) = KnownStates es
KnownStates (disconnect_clicked c ∷ es) = KnownStates es

-- A name for each state below 6, and for no other.
pub state_name-some : (i : ℕ) → i < 6 → (name : String) × (state_name i ≡ some name)
unfolding state_name
state_name-some i h = get_elem?-some state_str i (omega arith)

pub state_name-none : (i : ℕ) → 6 ≤ i → state_name i ≡ none
unfolding state_name
state_name-none i h = get_elem?-none state_str i (omega arith)

pub ready_read-rcv_msg :
    (m : Mem) (n : ℕ) (w : Widget)
    → (ready_read_slot m n w).rcv_msg ≡ (if is_report m n then load_data m else w.rcv_msg)
unfolding ready_read_slot is_report
ready_read-rcv_msg m n w = ground arith

latest-cons :
    (e : Event) (es : List Event) (d : ForceCommRcv)
    → latest (e ∷ es) d ≡ latest es (latest (e ∷ []) d)
unfolding latest
latest-cons timeout es d = refl
latest-cons (ready_read m n) es d = refl
latest-cons connected es d = refl
latest-cons disconnected es d = refl
latest-cons (pressed f b) es d = refl
latest-cons connect_clicked es d = refl
latest-cons (disconnect_clicked c) es d = refl

KnownStates-cons :
    (e : Event) (es : List Event) → KnownStates (e ∷ es) → KnownStates (e ∷ []) × KnownStates es
KnownStates-cons timeout es h = (tt, h)
KnownStates-cons (ready_read m n) es h = ((h.0, tt), h.1)
KnownStates-cons connected es h = (tt, h)
KnownStates-cons disconnected es h = (tt, h)
KnownStates-cons (pressed f b) es h = (tt, h)
KnownStates-cons connect_clicked es h = (tt, h)
KnownStates-cons (disconnect_clicked c) es h = (tt, h)

chosen-known :
    (b : Bool) (x d : ForceCommRcv)
    → (b ≡ true → x.force_state < 6)
    → d.force_state < 6
    → (if b then x else d).force_state < 6
chosen-known true x d k h = k refl
chosen-known false x d k h = h

-- The last report of a run without unknown states has a known state.
pub latest-known :
    (es : List Event) (d : ForceCommRcv)
    → d.force_state < 6
    → KnownStates es
    → (latest es d).force_state < 6
unfolding latest
latest-known [] d h k = h
latest-known (ready_read m n ∷ es) d h k =
    latest-known es (if is_report m n then load_data m else d)
      (chosen-known (is_report m n) (load_data m) d k.0 h) k.1
latest-known (timeout ∷ es) d h k = latest-known es d h k
latest-known (connected ∷ es) d h k = latest-known es d h k
latest-known (disconnected ∷ es) d h k = latest-known es d h k
latest-known (pressed f b ∷ es) d h k = latest-known es d h k
latest-known (connect_clicked ∷ es) d h k = latest-known es d h k
latest-known (disconnect_clicked c ∷ es) d h k = latest-known es d h k

-- The window shows the report `d`: the name of its state, and its six numbers.
pub record Shows (qt : Qt) (d : ForceCommRcv) (w : Widget) : Type 0 where
  pub held : w.rcv_msg ≡ d
  pub state_shown : state_name d.force_state ≡ some w.lab_force_state
  pub axes_shown : w.theta_axes ≡ record {
    text_0 = qt.number d.force_theta.axis_0;
    text_1 = qt.number d.force_theta.axis_1;
    text_2 = qt.number d.force_theta.axis_2;
    text_3 = qt.number d.force_theta.axis_3;
    text_4 = qt.number d.force_theta.axis_4;
    text_5 = qt.number d.force_theta.axis_5;
  }

module _ (qt : Qt) where
  -- An event leaves the last report in `rcvMsg`, if the window does not fault.
  pub handle-latest :
      (e : Event) (w : Widget) {w' : Widget} {calls : List SocketCall}
      → handle qt e w ≡ some (w', calls)
      → w'.rcv_msg ≡ latest (e ∷ []) w.rcv_msg
  unfolding handle latest is_report update_show update_monitor ready_read_slot
  handle-latest timeout w h = ground arith
  handle-latest (ready_read m n) w h = ground arith
  handle-latest connected w h = ground arith
  handle-latest disconnected w h = ground arith
  handle-latest (pressed f b) w h = ground arith
  handle-latest connect_clicked w h = ground arith
  handle-latest (disconnect_clicked c) w h = ground arith

  pub timeout-Shows :
      (w : Widget)
      → w.rcv_msg.force_state < 6
      → (w' : Widget) × (handle qt timeout w ≡ some (w', [])) × Shows qt w.rcv_msg w'
  unfolding handle update_show update_monitor
  timeout-Shows w h =
      let (name, e) = state_name-some w.rcv_msg.force_state h in
      (
        record w {
          lab_force_state = name;
          theta_axes = record {
            text_0 = qt.number w.rcv_msg.force_theta.axis_0;
            text_1 = qt.number w.rcv_msg.force_theta.axis_1;
            text_2 = qt.number w.rcv_msg.force_theta.axis_2;
            text_3 = qt.number w.rcv_msg.force_theta.axis_3;
            text_4 = qt.number w.rcv_msg.force_theta.axis_4;
            text_5 = qt.number w.rcv_msg.force_theta.axis_5;
          };
        },
        rw (e, handle) refl,
        record { held = refl; state_shown = e; axes_shown = refl },
      )

  -- Only a known state is needed for an event to be handled.
  pub handle-total :
      (e : Event) (w : Widget)
      → w.rcv_msg.force_state < 6
      → (w' : Widget) × (calls : List SocketCall) × (handle qt e w ≡ some (w', calls))
  unfolding handle
  handle-total timeout w h = let (w', e, _) = timeout-Shows w h in (w', [], e)
  handle-total (ready_read m n) w h = (_, _, refl)
  handle-total connected w h = (_, _, refl)
  handle-total disconnected w h = (_, _, refl)
  handle-total (pressed f b) w h = (_, _, refl)
  handle-total connect_clicked w h = (_, _, refl)
  handle-total (disconnect_clicked c) w h = (_, _, refl)

  -- The window shows the last report: from a window whose report has a known state, after any events in
  -- which every report has one, none of which faults, the next timeout makes the window show the name
  -- of the state and the six numbers of the last of the reports, or of the one it had if there was none.
  pub run-Shows :
      (es : List Event) (w : Widget)
      → w.rcv_msg.force_state < 6
      → KnownStates es
      → (w' : Widget) × (calls : List SocketCall) × (handle_all qt (es ++ (timeout ∷ [])) w
          ≡ some (w', calls))
        × Shows qt (latest es w.rcv_msg) w'
  unfolding latest handle_all
  run-Shows [] w h k =
      let (w', e, s) = timeout-Shows w h in (w', _, handle_all-step qt timeout [] w e refl, s)
  run-Shows (e ∷ es) w h k =
      let (k1, k2) = KnownStates-cons e es k in
      let (w1, first, e1) = handle-total e w h in
      let same = handle-latest e w e1 in
      let (w', rest, e2, s) = run-Shows es w1 (rw same (latest-known (e ∷ []) w.rcv_msg h k1)) k2 in
      (
        w',
        _,
        handle_all-step qt e (es ++ (timeout ∷ [])) w e1 e2,
        rw (latest-cons e es w.rcv_msg, sym same) s,
      )

  -- A report with an unknown state, one of the seventh on, stops the window: whatever came before, if
  -- the window is still there, the timeout after it reads `state_str` out of the array.
  pub unknown_faults :
      (m : Mem) (w : Widget) (es : List Event)
      → is_report m data_size ≡ true
      → 6 ≤ (load_data m).force_state
      → handle_all qt (ready_read m data_size ∷ timeout ∷ es) w ≡ none
  unfolding handle_all handle update_show update_monitor ready_read_slot is_report
  unknown_faults m w es r h = ground (arith, state_name-none (load_data m).force_state h)
