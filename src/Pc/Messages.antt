-- ===== src/Pc/Messages.antt =====
-- What the buttons of SimForce_Qt/widget.cpp send, as the messages that arrive at the controller.
use virtual_force.Prelude.{
  ℕ, ◌^◌, ◌<◌, ◌≡◌, refl, sym, ap, arith, Bool, true, false, none, some, List, [], ◌∷◌, ◌++◌, map,
}
use Prim.Native.String.{String}
use mathlib.Core.List.{map-append}
use virtual_force.Pc.Runs.{handle_all-cons}
use virtual_force.Wire.{Axes, PcCommCmd, load_cmd, store_cmd, cmd_size}
use virtual_force.Wire.RoundTrip.{Fits, load_cmd-store_cmd}
use virtual_force.Force.Exchange.{no_force}
use virtual_force.Network.{Fread}
use virtual_force.Controller.{
  reset_fault, idle, working, set_fault, force_give_start, force_give_stop,
}
use virtual_force.Pc.Comm.{command, value}
use virtual_force.Pc.Doubles.{scaled_int-lt}
use virtual_force.Pc.Widget.{
  Qt, Form, Widget, SocketCall, write, connect_to_host, disconnect_from_host, Button,
  reset_fault_clicked, idle_clicked, working_clicked, set_fault_clicked, force_pressed,
  force_released, Event, timeout, ready_read, connected, disconnected, pressed, connect_clicked,
  disconnect_clicked, send_data, entry, on_btn, handle, handle_all,
}

-- the clicks among the events
unfoldable pub clicks : List Event → List (Form × Button)
clicks [] = []
clicks (pressed f b ∷ es) = (f, b) ∷ clicks es
clicks (timeout ∷ es) = clicks es
clicks (ready_read m n ∷ es) = clicks es
clicks (connected ∷ es) = clicks es
clicks (disconnected ∷ es) = clicks es
clicks (connect_clicked ∷ es) = clicks es
clicks (disconnect_clicked c ∷ es) = clicks es

-- The writes to a socket, each as one read at the other end.
unfoldable pub arriving : List SocketCall → List Fread
arriving [] = []
arriving (write m n ∷ calls) = record { data_read = m; count = n; error = none } ∷ arriving calls
arriving (connect_to_host ∷ calls) = arriving calls
arriving (disconnect_from_host ∷ calls) = arriving calls

unfoldable pub number : Button → ℕ
number reset_fault_clicked = reset_fault
number idle_clicked = idle
number working_clicked = working
number set_fault_clicked = set_fault
number force_pressed = force_give_start
number force_released = force_give_stop

module _ (qt : Qt) where
  -- the force on the form: the checked entries, and 0 for the others
  unfoldable pub form_force : Form → Axes
  form_force f = record {
    axis_0 = entry qt f.cbx_axis_0 f.line_edits.text_0 0;
    axis_1 = entry qt f.cbx_axis_1 f.line_edits.text_1 0;
    axis_2 = entry qt f.cbx_axis_2 f.line_edits.text_2 0;
    axis_3 = entry qt f.cbx_axis_3 f.line_edits.text_3 0;
    axis_4 = entry qt f.cbx_axis_4 f.line_edits.text_4 0;
    axis_5 = entry qt f.cbx_axis_5 f.line_edits.text_5 0;
  }

  unfoldable pub params_of : Form → Button → Axes
  params_of f force_pressed = form_force f
  params_of f reset_fault_clicked = no_force
  params_of f idle_clicked = no_force
  params_of f working_clicked = no_force
  params_of f set_fault_clicked = no_force
  params_of f force_released = no_force

  unfoldable pub message : Form → Button → PcCommCmd
  message f b = record { cmd = number b; rsv = 0; params = params_of f b }

  on_btn_lem :
      (f : Form) (b : Button) → on_btn qt f b ≡ write (store_cmd (message f b)) cmd_size ∷ []
  unfolding on_btn message number params_of form_force send_data command value
  on_btn_lem f reset_fault_clicked = refl
  on_btn_lem f idle_clicked = refl
  on_btn_lem f working_clicked = refl
  on_btn_lem f set_fault_clicked = refl
  on_btn_lem f force_pressed = refl
  on_btn_lem f force_released = refl

  unfoldable pub read_of : Form × Button → Fread
  read_of (f, b) = record { data_read = store_cmd (message f b); count = cmd_size; error = none }

  arriving-append : (a b : List SocketCall) → arriving (a ++ b) ≡ arriving a ++ arriving b
  unfolding arriving
  arriving-append [] b = refl
  arriving-append (write m n ∷ a) b =
      ap (λ (l : List Fread). record { data_read = m; count = n; error = none } ∷ l)
        (arriving-append a b)
  arriving-append (connect_to_host ∷ a) b = arriving-append a b
  arriving-append (disconnect_from_host ∷ a) b = arriving-append a b

  -- What an event sends is the message of its click, if it is one.
  pub handle-arriving :
      (e : Event) (w : Widget) {w' : Widget} {calls : List SocketCall}
      → handle qt e w ≡ some (w', calls)
      → arriving calls ≡ map read_of (clicks (e ∷ []))
  unfolding handle arriving clicks read_of
  handle-arriving timeout w h = ground arith
  handle-arriving (ready_read m n) w h = ground arith
  handle-arriving connected w h = ground arith
  handle-arriving disconnected w h = ground arith
  handle-arriving (pressed f b) w h = ground (arith, on_btn_lem f b)
  handle-arriving connect_clicked w h = ground arith
  handle-arriving (disconnect_clicked c) w h = ground arith

  clicks-cons : (e : Event) (es : List Event) → clicks (e ∷ es) ≡ clicks (e ∷ []) ++ clicks es
  unfolding clicks
  clicks-cons timeout es = refl
  clicks-cons (ready_read m n) es = refl
  clicks-cons connected es = refl
  clicks-cons disconnected es = refl
  clicks-cons (pressed f b) es = refl
  clicks-cons connect_clicked es = refl
  clicks-cons (disconnect_clicked c) es = refl

  pub handle_all-arriving :
      (es : List Event) (w : Widget) {w' : Widget} {calls : List SocketCall}
      → handle_all qt es w ≡ some (w', calls)
      → arriving calls ≡ map read_of (clicks es)
  unfolding handle_all arriving clicks
  handle_all-arriving [] w h = ground arith
  handle_all-arriving (e ∷ es) w {w'} {calls} h =
      let (w1, first, rest, k, l, split) = handle_all-cons qt e es w h in
      rw
        (
          split,
          clicks-cons e es,
          arriving-append first rest,
          handle-arriving e w k,
          handle_all-arriving es w1 l,
        )
        (sym (map-append read_of (clicks (e ∷ [])) (clicks es)))

  -- The values of a message fit in their fields.
  entry-lt : (checked : Bool) (text : String) → entry qt checked text 0 < 256 ^ 4
  entry-lt true text = omega (arith, scaled_int-lt (qt.to_double text))
  entry-lt false text = omega arith

  params_of-Fits : (f : Form) (b : Button) → Fits 4 (params_of f b)
  unfolding params_of form_force
  params_of-Fits f force_pressed = record {
    fits_0 = entry-lt f.cbx_axis_0 f.line_edits.text_0;
    fits_1 = entry-lt f.cbx_axis_1 f.line_edits.text_1;
    fits_2 = entry-lt f.cbx_axis_2 f.line_edits.text_2;
    fits_3 = entry-lt f.cbx_axis_3 f.line_edits.text_3;
    fits_4 = entry-lt f.cbx_axis_4 f.line_edits.text_4;
    fits_5 = entry-lt f.cbx_axis_5 f.line_edits.text_5;
  }
  params_of-Fits f reset_fault_clicked = omega arith
  params_of-Fits f idle_clicked = omega arith
  params_of-Fits f working_clicked = omega arith
  params_of-Fits f set_fault_clicked = omega arith
  params_of-Fits f force_released = omega arith

  number-lt : (b : Button) → number b < 2 ^ 32
  unfolding number
  number-lt reset_fault_clicked = omega arith
  number-lt idle_clicked = omega arith
  number-lt working_clicked = omega arith
  number-lt set_fault_clicked = omega arith
  number-lt force_pressed = omega arith
  number-lt force_released = omega arith

  pub message-read : (f : Form) (b : Button) → load_cmd (store_cmd (message f b)) ≡ message f b
  unfolding message
  message-read f b =
      load_cmd-store_cmd (message f b) (number-lt b) (omega arith) (params_of-Fits f b)
