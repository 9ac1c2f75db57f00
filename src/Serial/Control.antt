-- ===== src/Serial/Control.antt =====
-- The functions of Include/com/Source/linux_serial.cpp that set a port up, and all its functions as
-- one step.
use hzrobot.Prelude.{ℕ, Option, some, none, List, [], ◌∷◌, ◌++◌, Bytes, get_elem?, ℤ, pos, negsuc}
use hzrobot.Serial.{
  Call, Port, Termios, flushes, sets, opens, fails_to_open, queries_mode, closes, breaks, Serial,
  serial_ok, serial_error_open, serial_parameter_error, log, put_port, with_fd, serial_open,
  serial_write, serial_non_block_read, serial_block_read, serial_close, serial_data_in_input_queue,
  serial_data_in_output_queue,
}
use hzrobot.Serial.Settings.{set_param, set_flow, speed_table, pick_speed, set_speed}

-- The new settings are kept and made the line's.
unfoldable pub put_settings : ℕ → ℕ → Port → Termios → List Call → Serial → Serial
put_settings port fd entry settings before s =
    log (before ++ sets fd settings ∷ []) (put_port port (record entry { newtio = settings }) s)

unfoldable pub flow_result : (port fd : ℕ) → Port → Option Termios → Serial → ℤ × Serial
flow_result port fd entry none s = (serial_parameter_error, s)
flow_result port fd entry (some settings) s =
    (serial_ok, put_settings port fd entry settings (flushes fd ∷ []) s)

abbrev pub body_flow : (port control fd : ℕ) → Port → Serial → ℤ × Serial
body_flow port control fd entry s = flow_result port fd entry (set_flow control entry.newtio) s

unfoldable pub serial_flow_control : (port control : ℕ) → Serial → Option (ℤ × Serial)
serial_flow_control port control = with_fd port (body_flow port control)

-- The search reads behind its table for a speed above all: then nothing is said of what follows.
unfoldable pub speed_entry : ℕ → Option ℕ → Option Port → Serial → Option (ℤ × Serial)
speed_entry port picked none s = none
speed_entry port picked (some entry) s = elim entry.fd [
  | none ↦ some (negsuc 0, s)
  | some fd ↦ elim picked [
    | none ↦ none
    | some speed ↦ some (serial_ok, put_settings port fd entry (set_speed speed entry.newtio) [] s)
  ]
]

unfoldable pub serial_set_speed : (port speed : ℕ) → Serial → Option (ℤ × Serial)
serial_set_speed port speed s =
    speed_entry port (pick_speed speed_table speed) (get_elem? s.ports port) s

abbrev pub body_param : (port parity databits stopbit fd : ℕ) → Port → Serial → ℤ × Serial
body_param port parity databits stopbit fd entry s = (
  serial_ok,
  put_settings port fd entry (set_param parity databits stopbit entry.newtio) (flushes fd ∷ []) s,
)

unfoldable pub serial_set_param : (port parity databits stopbit : ℕ) → Serial → Option (ℤ × Serial)
serial_set_param port parity databits stopbit =
    with_fd port (body_param port parity databits stopbit)

-- What `ioctl` returns and what it puts into `mode`.
abbrev pub mode_result : ℤ → ℤ → ℤ
mode_result (pos n) mode = mode
mode_result (negsuc n) mode = negsuc n

-- A port that is not open is opened for the call only.
unfoldable pub get_mode : ℕ → Option ℕ → (ret mode : ℤ) → Option ℕ → Serial → ℤ × Serial
get_mode port answer ret mode (some fd) s = (mode_result ret mode, log (queries_mode fd ∷ []) s)
get_mode port none ret mode none s = (serial_error_open, log (fails_to_open port ∷ []) s)
get_mode port (some fd) ret mode none s =
    (mode_result ret mode, log (opens port fd ∷ queries_mode fd ∷ closes fd ∷ []) s)

unfoldable pub mode_entry :
    ℕ → Option ℕ → (ret mode : ℤ) → Option Port → Serial → Option (ℤ × Serial)
mode_entry port answer ret mode none s = none
mode_entry port answer ret mode (some entry) s = some (get_mode port answer ret mode entry.fd s)

unfoldable pub serial_get_mode : ℕ → Option ℕ → (ret mode : ℤ) → Serial → Option (ℤ × Serial)
serial_get_mode port answer ret mode s = mode_entry port answer ret mode (get_elem? s.ports port) s

-- Sends a break.
unfoldable pub serial_clean_buff : ℕ → Serial → Option (ℤ × Serial)
serial_clean_buff port = with_fd port (λ fd entry s. (serial_ok, log (breaks fd ∷ []) s))

-- The functions of the file on a port, with what the system answers.
pub data Use : Type 0 where
  starts : Option ℕ → Option Termios → Use
  shuts cleans : Use
  sends : Bytes → ℤ → Use
  takes waits : Option Bytes → Use
  counts_input counts_output : Option ℕ → Use
  flows speeds : ℕ → Use
  params : (parity databits stopbit : ℕ) → Use
  modes : Option ℕ → (ret mode : ℤ) → Use

unfoldable pub use_port : ℕ → Use → Serial → Option (ℤ × Serial)
use_port port (starts answer old) s = serial_open port answer old s
use_port port shuts s = serial_close port s
use_port port cleans s = serial_clean_buff port s
use_port port (sends str result) s = serial_write port str result s
use_port port (takes answer) s = serial_non_block_read port answer s
use_port port (waits answer) s = serial_block_read port answer s
use_port port (counts_input answer) s = serial_data_in_input_queue port answer s
use_port port (counts_output answer) s = serial_data_in_output_queue port answer s
use_port port (flows control) s = serial_flow_control port control s
use_port port (speeds speed) s = serial_set_speed port speed s
use_port port (params parity databits stopbit) s = serial_set_param port parity databits stopbit s
use_port port (modes answer ret mode) s = serial_get_mode port answer ret mode s

-- Calls of the functions one after another; `none` when one of them leaves an array.
unfoldable pub use_ports : List (ℕ × Use) → Serial → Option Serial
use_ports [] s = some s
use_ports ((port, u) ∷ uses) s = elim (use_port port u s) [
  | none ↦ none
  | some (result, s') ↦ use_ports uses s'
]
