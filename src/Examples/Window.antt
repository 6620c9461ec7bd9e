-- ===== src/Examples/Window.antt =====
-- The theorems on the window of SimForce_Qt/widget.cpp at concrete events, and runs.
use virtual_force.Prelude.{
  ◌-◌, ◌^◌, ◌≡◌, refl, arith, true, false, none, some, List, [], ◌∷◌, ◌++◌, if◌then◌else◌, ◌==◌,
}
use virtual_force.Memory.{Mem}
use virtual_force.Wire.{PcCommData, store_data, load_data, data_size, magig_head}
use virtual_force.Wire.RoundTrip.{load_data-store_data}
use virtual_force.Network.{Receive, Fork, established}
use virtual_force.Network.Sending.{Sent}
use virtual_force.Controller.{controller_display_res}
use virtual_force.Controller.Report.{report, taken}
use virtual_force.Main.Rounds.{Carries}
use virtual_force.Pc.Widget.{
  Qt, Form, Widget, SocketCall, force_pressed, idle_clicked, Event, timeout, ready_read, connected,
  pressed, connect_clicked, widget, handle, handle_all, on_btn, connected_slot, no_texts,
}
use virtual_force.Pc.Messages.{arriving}
use virtual_force.Pc.Doubles.{scaled_int}
use virtual_force.Pc.Truncation.{IsScaled, scaled_int-IsScaled}
use virtual_force.Pc.Latest.{latest, Shows, is_report, unknown_faults}
use virtual_force.Pc.Reports.{report_shown}
use virtual_force.Pc.Buttons.{link, Enabled, buttons_follow_link}
use virtual_force.Examples.Inputs.{six, monitor, whole, net}

-- every text is 0.5
abbrev pub qt : Qt
qt = record {
  to_double = λ s. 0x3fe0000000000000;
  number = λ d. if d == 0 then "0.000000" else "0.500000";
}

abbrev pub form : Form
form = record {
  cbx_axis_0 = true;
  cbx_axis_1 = false;
  cbx_axis_2 = false;
  cbx_axis_3 = false;
  cbx_axis_4 = false;
  cbx_axis_5 = true;
  line_edits = no_texts;
}

abbrev events : List Event
events = connect_clicked ∷ connected ∷ pressed form force_pressed ∷ pressed form idle_clicked ∷ []

abbrev after : Widget
after = record widget {
  lab_info = "Connect Success!";
  connect_enabled = false;
  disconnect_enabled = true;
}

abbrev calls : List SocketCall
calls = SocketCall.connect_to_host ∷ on_btn qt form force_pressed ++ on_btn qt form idle_clicked

events_run : handle_all qt events widget ≡ some (after, calls)
unfolding handle_all handle widget connected_slot on_btn
events_run = refl

abbrev receive : List SocketCall → Receive
receive cs = record {
  tcpi_state = 1;
  reads = arriving cs;
  accept = none;
  fdopen = λ fd. false;
  fork = Fork.child;
}

abbrev receives : List Receive
receives = receive (on_btn qt form force_pressed) ∷ receive (on_btn qt form idle_clicked) ∷ []

calls-Carries : Carries receives (arriving calls)
unfolding arriving on_btn
calls-Carries = ([], refl, refl, refl, ([], refl, refl, refl, tt))

-- a report with the state 9, which has no name
abbrev unknown : PcCommData
unknown = record { head = magig_head; force_state = 9; force_theta = six 7 }

unknown-read : load_data (store_data unknown) ≡ unknown
unknown-read = load_data-store_data unknown (omega arith) (omega arith) (omega arith)

unknown-is_report : is_report (store_data unknown) data_size ≡ true
unfolding is_report
unknown-is_report = rw unknown-read refl

unknown_faults_example :
    handle_all qt (ready_read (store_data unknown) data_size ∷ timeout ∷ connected ∷ []) widget
    ≡ none
unknown_faults_example =
    unknown_faults qt (store_data unknown) widget (connected ∷ []) unknown-is_report
      (rw unknown-read (omega arith))

-- two reports in one read are none
coalesced : is_report (store_data unknown) 112 ≡ false
unfolding is_report
coalesced = rw unknown-read refl

report_shown_example :
    (m : Mem) × (controller_display_res established net whole
      ≡ some (Sent.sent m data_size, record whole { monitor_info = some (taken monitor) }))
    × (w' : Widget) × (calls : List SocketCall) × (handle_all qt
          (ready_read m data_size ∷ connect_clicked ∷ timeout ∷ [])
          widget
        ≡ some (w', calls))
    × Shows qt (latest (connect_clicked ∷ []) (report monitor)) w'
report_shown_example =
    report_shown qt net whole (connect_clicked ∷ []) widget refl (omega arith) (omega arith) tt

buttons_follow_link_example : Enabled (link events none) after
buttons_follow_link_example = buttons_follow_link qt events events_run

-- -2.5, as 2.5 times 2 ^ 24 below 2 ^ 32
scaled_int-IsScaled_example : IsScaled 0xc004000000000000 (scaled_int 0xc004000000000000)
scaled_int-IsScaled_example = scaled_int-IsScaled 0xc004000000000000

minus_two_and_a_half : scaled_int 0xc004000000000000 ≡ 2 ^ 32 - 41943040
unfolding scaled_int
minus_two_and_a_half = refl
