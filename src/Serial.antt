-- ===== src/Serial.antt =====
-- The serial ports of Include/com/Source/linux_serial.cpp, in the variant that no build macro picks
-- another for: the table of the ports with what it keeps of each, and opening, closing, reading
-- and writing. What a call of the system returns is a parameter.
pub mod Settings
pub mod Control
pub mod Device
pub mod Reading
pub mod Entries
pub mod Held
pub mod Restored
pub mod Line
pub mod Speeds
pub mod Configured
use hzrobot.Prelude.{
  ℕ, zero, suc, Bool, true, false, Option, some, none, List, [], ◌∷◌, ◌++◌, Bytes, length,
  get_elem?, ℤ, pos, negsuc,
}

-- The size of a character; Linux has no bit of it set for CS5.
pub data CharSize : Type 0 where
  cs5 cs6 cs7 cs8 : CharSize

-- `c_cflag`: the bits that the code names, and the others. The speed is the one in bits for each
-- second that the constant stands for, and 0 for B0.
pub record Cflag : Type 0 where
  pub speed : ℕ
  pub csize : CharSize
  pub cstopb : Bool
  pub cread : Bool
  pub parenb : Bool
  pub parodd : Bool
  pub clocal : Bool
  pub cmspar : Bool
  pub crtscts : Bool
  pub other_cflag : ℕ

-- `c_iflag`
pub record Iflag : Type 0 where
  pub inpck : Bool
  pub ixon : Bool
  pub ixoff : Bool
  pub ixany : Bool
  pub other_iflag : ℕ

pub record Termios : Type 0 where
  pub c_iflag : Iflag
  pub c_oflag : ℕ
  pub c_cflag : Cflag
  pub c_lflag : ℕ
  pub vtime : ℕ
  pub vmin : ℕ

-- A port's entries of `fd_map`, `oldtio` and `newtio`; -1 in `fd_map` is `none`.
pub record Port : Type 0 where
  pub fd : Option ℕ
  pub oldtio : Termios
  pub newtio : Termios

-- The calls of the system that were made.
pub data Call : Type 0 where
  opens : (port fd : ℕ) → Call
  fails_to_open : (port : ℕ) → Call
  gets flushes closes reads_now reads_later queries_input queries_output queries_mode breaks :
      ℕ → Call
  sets : ℕ → Termios → Call
  writes : ℕ → Bytes → Call

pub record Serial : Type 0 where
  pub ports : List Port
  pub calls : List Call

abbrev pub max_port_num : ℕ
max_port_num = 20

abbrev pub serial_ok : ℤ
serial_ok = pos 0

abbrev pub serial_error_fd : ℤ
serial_error_fd = negsuc 0

abbrev pub serial_error_open : ℤ
serial_error_open = negsuc 1

abbrev pub serial_parameter_error : ℤ
serial_parameter_error = negsuc 2

-- All bits of a word cleared.
abbrev pub zero_cflag : Cflag
zero_cflag = record {
  speed = 0;
  csize = cs5;
  cstopb = false;
  cread = false;
  parenb = false;
  parodd = false;
  clocal = false;
  cmspar = false;
  crtscts = false;
  other_cflag = 0;
}

abbrev pub zero_iflag : Iflag
zero_iflag = record { inpck = false; ixon = false; ixoff = false; ixany = false; other_iflag = 0 }

abbrev pub zero_termios : Termios
zero_termios = record {
  c_iflag = zero_iflag;
  c_oflag = 0;
  c_cflag = zero_cflag;
  c_lflag = 0;
  vtime = 0;
  vmin = 0;
}

-- The settings that `SerialOpen` makes.
abbrev pub start_settings : Termios
start_settings = record zero_termios {
  c_cflag = record zero_cflag { speed = 9600; csize = cs8; cread = true; clocal = true };
  vtime = 0;
  vmin = 1;
}

abbrev pub closed_port : Port
closed_port = record { fd = none; oldtio = zero_termios; newtio = zero_termios }

-- The arrays of the program before its first call.
abbrev pub start : Serial
start = record { ports = replicate max_port_num; calls = [] }
  where
    replicate : ℕ → List Port
    replicate zero = []
    replicate (suc n) = closed_port ∷ replicate n

unfoldable pub put_at {ℓ} : {A : Type ℓ} → ℕ → A → List A → List A
put_at i x [] = []
put_at zero x (y ∷ ys) = x ∷ ys
put_at (suc i) x (y ∷ ys) = y ∷ put_at i x ys

unfoldable pub log : List Call → Serial → Serial
log calls s = record s { calls = s.calls ++ calls }

abbrev pub put_port : ℕ → Port → Serial → Serial
put_port port entry s = record s { ports = put_at port entry s.ports }

-- What a function does that begins with `FindFD` and returns its result where that is negative;
-- `none` stands for reading outside the array.
unfoldable pub guard_fd :
    Option Port → (ℕ → Port → Serial → ℤ × Serial) → Serial → Option (ℤ × Serial)
guard_fd none body s = none
guard_fd (some entry) body s =
    some (elim entry.fd [ none ↦ (serial_error_fd, s) | some fd ↦ body fd entry s ])

-- `FindFD`
abbrev pub with_fd : ℕ → (ℕ → Port → Serial → ℤ × Serial) → Serial → Option (ℤ × Serial)
with_fd port body s = guard_fd (get_elem? s.ports port) body s

-- What `open` and `tcgetattr` give; where the latter fails, the saved settings stay.
unfoldable pub opened_port : ℕ → Option ℕ → Option Termios → Port → Serial → ℤ × Serial
opened_port port none old entry s = (serial_error_open, log (fails_to_open port ∷ []) s)
opened_port port (some fd) old entry s = (
  pos fd,
  log (opens port fd ∷ gets fd ∷ flushes fd ∷ sets fd start_settings ∷ []) (
      put_port port
        (record {
          fd = some fd;
          oldtio = (elim old [ none ↦ entry.oldtio | some settings ↦ settings ]);
          newtio = start_settings;
        })
        s),
)

unfoldable pub open_entry :
    ℕ → Option ℕ → Option Termios → Option Port → Serial → Option (ℤ × Serial)
open_entry port answer old none s = none
open_entry port answer old (some entry) s = some (elim entry.fd [
  | none ↦ opened_port port answer old entry s
  | some fd ↦ (serial_error_open, s)
])

unfoldable pub serial_open : ℕ → Option ℕ → Option Termios → Serial → Option (ℤ × Serial)
serial_open port answer old s = open_entry port answer old (get_elem? s.ports port) s

unfoldable pub serial_write : ℕ → Bytes → ℤ → Serial → Option (ℤ × Serial)
serial_write port str result = with_fd port (λ fd entry s. (result, log (writes fd str ∷ []) s))

-- What `read` returns, for the bytes it puts into the buffer; -1 for `none`.
abbrev pub count_read : Option Bytes → ℤ
count_read none = negsuc 0
count_read (some bytes) = pos (length bytes)

unfoldable pub serial_non_block_read : ℕ → Option Bytes → Serial → Option (ℤ × Serial)
serial_non_block_read port answer =
    with_fd port (λ fd entry s. (count_read answer, log (reads_now fd ∷ []) s))

unfoldable pub serial_block_read : ℕ → Option Bytes → Serial → Option (ℤ × Serial)
serial_block_read port answer =
    with_fd port (λ fd entry s. (count_read answer, log (reads_later fd ∷ []) s))

abbrev pub body_close : ℕ → ℕ → Port → Serial → ℤ × Serial
body_close port fd entry s = (
  serial_ok,
  log (sets fd entry.oldtio ∷ closes fd ∷ []) (put_port port (record entry { fd = none }) s),
)

unfoldable pub serial_close : ℕ → Serial → Option (ℤ × Serial)
serial_close port = with_fd port (body_close port)

-- What `ioctl` puts into `bytes`, which is 0 before; `none` where it fails.
abbrev pub count_queued : Option ℕ → ℤ
count_queued none = pos 0
count_queued (some n) = pos n

unfoldable pub serial_data_in_input_queue : ℕ → Option ℕ → Serial → Option (ℤ × Serial)
serial_data_in_input_queue port answer =
    with_fd port (λ fd entry s. (count_queued answer, log (queries_input fd ∷ []) s))

unfoldable pub serial_data_in_output_queue : ℕ → Option ℕ → Serial → Option (ℤ × Serial)
serial_data_in_output_queue port answer =
    with_fd port (λ fd entry s. (count_queued answer, log (queries_output fd ∷ []) s))
