-- ===== src/Pc/Widget.antt =====
-- SimForce_Qt/widget.cpp and widget.h: the window. A slot takes the window and returns it changed,
-- with the calls that it makes on the socket. Qt is a parameter: what `toDouble` and `number` give, and
-- what the socket and the timer do, as events. The connections between signals and slots that the
-- constructor makes are those of `handle`.
use Prim.Native.String.{String}
use virtual_force.Prelude.{
  ℕ, ◌==◌, ◌&&◌, Bool, true, false, Option, none, some, List, [], ◌∷◌, ◌++◌, if◌then◌else◌,
}
use virtual_force.Memory.{Mem}
use virtual_force.Wire.{load_data, store_cmd, magig_head, cmd_size, data_size}
use virtual_force.Force.Exchange.{no_force}
use virtual_force.Pc.Comm.{ForceCommSend, ForceCommRcv, state_name, command}
use virtual_force.Pc.Doubles.{scaled_int}

-- What the code takes from Qt: `QString::toDouble`, as the bits of a double, and `QString::number` of
-- such bits in the format 'f'.
pub record Qt : Type 0 where
  pub to_double : String → ℕ
  pub number : ℕ → String

-- the six texts of a row of line edits
pub record Texts : Type 0 where
  pub text_0 : String
  pub text_1 : String
  pub text_2 : String
  pub text_3 : String
  pub text_4 : String
  pub text_5 : String

-- What the user has entered when a slot runs: the check boxes `cbx_axis_0` to `cbx_axis_5`, and the
-- line edits `lineEdit_1` to `lineEdit_6`.
pub record Form : Type 0 where
  pub cbx_axis_0 : Bool
  pub cbx_axis_1 : Bool
  pub cbx_axis_2 : Bool
  pub cbx_axis_3 : Bool
  pub cbx_axis_4 : Bool
  pub cbx_axis_5 : Bool
  pub line_edits : Texts

-- The window: `rcvMsg`, and what the slots change of `ui`.
pub record Widget : Type 0 where
  pub rcv_msg : ForceCommRcv
  pub lab_force_state : String
  pub theta_axes : Texts
  pub lab_info : String
  pub connect_enabled : Bool
  pub disconnect_enabled : Bool

-- A call of `mClient`.
pub data SocketCall : Type 0 where
  write : Mem → ℕ → SocketCall
  connect_to_host : SocketCall
  disconnect_from_host : SocketCall

-- the buttons for the controller; that of the force is pressed and released
pub data Button : Type 0 where
  reset_fault_clicked idle_clicked working_clicked set_fault_clicked : Button
  force_pressed force_released : Button

-- A signal: of the timer, of the socket, with the bytes that it has then and their number, or of a
-- button; `disconnect_clicked` comes with whether the socket is in the connected state.
pub data Event : Type 0 where
  timeout : Event
  ready_read : Mem → ℕ → Event
  connected : Event
  disconnected : Event
  pressed : Form → Button → Event
  connect_clicked : Event
  disconnect_clicked : Bool → Event

abbrev pub no_report : ForceCommRcv
no_report = record { head = 0; force_state = 0; force_theta = no_force }

abbrev pub no_texts : Texts
no_texts = record { text_0 = ""; text_1 = ""; text_2 = ""; text_3 = ""; text_4 = ""; text_5 = "" }

-- The window after its constructor: `memset` of `rcvMsg`, and the texts of widget.ui, which disables no
-- button.
unfoldable pub widget : Widget
widget = record {
  rcv_msg = no_report;
  lab_force_state = "";
  theta_axes = no_texts;
  lab_info = "";
  connect_enabled = true;
  disconnect_enabled = true;
}

unfoldable pub disconnected_slot : Widget → Widget
disconnected_slot w = record w { lab_info = ""; disconnect_enabled = false; connect_enabled = true }

unfoldable pub connected_slot : Widget → Widget
connected_slot w = record w {
  lab_info = "Connect Success!";
  connect_enabled = false;
  disconnect_enabled = true;
}

-- `recvArray` has `len` bytes at `pdata`.
unfoldable pub ready_read_slot : Mem → ℕ → Widget → Widget
ready_read_slot pdata len w =
    if len == 0
    then w
    else if ((load_data pdata).head == magig_head) && (len == data_size)
    then record w { rcv_msg = load_data pdata }
    else w

-- `sendMsg`
unfoldable pub send_msg : ForceCommSend → List SocketCall
send_msg p = write (store_cmd p) cmd_size ∷ []

-- `Force_Comm_Send_t sendData; memset(...); sendData.cmd = command[key];`
unfoldable pub send_data : String → ForceCommSend
send_data key = record { cmd = command key; rsv = 0; params = no_force }

module _ (qt : Qt) where
  -- `updateMonitor`; `none` is the access to `state_str` out of the array.
  unfoldable pub update_monitor : ForceCommRcv → Widget → Option Widget
  update_monitor pdata w = elim (state_name pdata.force_state) [
    | none ↦ none
    | some name ↦ some (record w {
      lab_force_state = name;
      theta_axes = record {
        text_0 = qt.number pdata.force_theta.axis_0;
        text_1 = qt.number pdata.force_theta.axis_1;
        text_2 = qt.number pdata.force_theta.axis_2;
        text_3 = qt.number pdata.force_theta.axis_3;
        text_4 = qt.number pdata.force_theta.axis_4;
        text_5 = qt.number pdata.force_theta.axis_5;
      };
    })
  ]

  unfoldable pub update_show : Widget → Option Widget
  unfolding update_monitor
  update_show w = update_monitor w.rcv_msg w

  -- one `if` of `setForceVal`: the entry of a line edit, if its box is checked
  abbrev pub entry : Bool → String → ℕ → ℕ
  entry checked text old = if checked then scaled_int (qt.to_double text) else old

  unfoldable pub set_force_val : Form → ForceCommSend → ForceCommSend
  set_force_val f p = record p {
    params = record {
      axis_0 = entry f.cbx_axis_0 f.line_edits.text_0 p.params.axis_0;
      axis_1 = entry f.cbx_axis_1 f.line_edits.text_1 p.params.axis_1;
      axis_2 = entry f.cbx_axis_2 f.line_edits.text_2 p.params.axis_2;
      axis_3 = entry f.cbx_axis_3 f.line_edits.text_3 p.params.axis_3;
      axis_4 = entry f.cbx_axis_4 f.line_edits.text_4 p.params.axis_4;
      axis_5 = entry f.cbx_axis_5 f.line_edits.text_5 p.params.axis_5;
    };
  }

  -- the slots `on_btn_resetFault_clicked` to `on_btn_force_released`
  unfoldable pub on_btn : Form → Button → List SocketCall
  unfolding send_msg send_data set_force_val
  on_btn f reset_fault_clicked = send_msg (send_data "Cmd_resetFault")
  on_btn f idle_clicked = send_msg (send_data "Cmd_idle")
  on_btn f working_clicked = send_msg (send_data "Cmd_working")
  on_btn f set_fault_clicked = send_msg (send_data "Cmd_setFault")
  on_btn f force_pressed = send_msg (set_force_val f (send_data "FORCE_GIVE_START"))
  on_btn f force_released = send_msg (send_data "FORCE_GIVE_STOP")

  unfoldable pub on_btn_disconnect_clicked : Bool → Widget → Widget × List SocketCall
  on_btn_disconnect_clicked is_connected w = (
    record w { disconnect_enabled = false; connect_enabled = true },
    if is_connected then disconnect_from_host ∷ [] else [],
  )

  unfoldable pub on_btn_connect_clicked : Widget → Widget × List SocketCall
  on_btn_connect_clicked w = (w, connect_to_host ∷ [])

  -- the slot for an event; `none` is a fault
  unfoldable pub handle : Event → Widget → Option (Widget × List SocketCall)
  unfolding update_show connected_slot disconnected_slot on_btn_disconnect_clicked
      on_btn_connect_clicked
  handle timeout w = elim (update_show w) [ none ↦ none | some w' ↦ some (w', []) ]
  handle (ready_read pdata len) w = some (ready_read_slot pdata len w, [])
  handle connected w = some (connected_slot w, [])
  handle disconnected w = some (disconnected_slot w, [])
  handle (pressed f b) w = some (w, on_btn f b)
  handle connect_clicked w = some (on_btn_connect_clicked w)
  handle (disconnect_clicked is_connected) w = some (on_btn_disconnect_clicked is_connected w)

  -- events, one after the other, with the calls that were made
  unfoldable pub handle_all : List Event → Widget → Option (Widget × List SocketCall)
  handle_all [] w = some (w, [])
  handle_all (e ∷ es) w = elim (handle e w) [
    | none ↦ none
    | some (w', calls) ↦ elim (handle_all es w') [
      | none ↦ none
      | some (w'', calls') ↦ some (w'', calls ++ calls')
    ]
  ]
