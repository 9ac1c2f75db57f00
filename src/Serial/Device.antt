-- ===== src/Serial/Device.antt =====
-- `CSerialPortImp` of Include/com/Source/linux_serialport_imp.cpp: an object for a port. Its
-- `read` is in Serial/Reading. A field that was not written yet is `none`; an `int` that is not
-- negative is a number.
use hzrobot.Prelude.{
  ℕ, zero, suc, ◌+◌, ◌-◌, ◌%◌, ◌^◌, Bool, true, false, if◌then◌else◌, Option, some, none, Bytes, ℤ,
  pos, negsuc,
}
use hzrobot.Serial.{Termios, Serial, serial_open, serial_write, serial_close}
use hzrobot.Serial.Control.{serial_set_speed, serial_set_param, serial_clean_buff}
use mathlib.Core.Option

pub data Parity : Type 0 where
  no_parity odd even : Parity

pub data Stopbits : Type 0 where
  one two : Stopbits

-- The numbers of the enumerations.
abbrev pub parity_code : Parity → ℕ
parity_code no_parity = 0
parity_code odd = 1
parity_code even = 2

abbrev pub stopbits_code : Stopbits → ℕ
stopbits_code one = 1
stopbits_code two = 2

pub record SerialPortImp : Type 0 where
  pub m_n_port : Option ℕ
  pub m_n_time_out : Option ℕ
  pub m_b_open : Bool

abbrev pub succeed_code : ℤ
succeed_code = pos 0

abbrev pub fail_code : ℤ
fail_code = negsuc 0

abbrev pub new_port : SerialPortImp
new_port = record { m_n_port = none; m_n_time_out = none; m_b_open = false }

abbrev pub is_error_open : ℤ → Bool
is_error_open (negsuc (suc zero)) = true
is_error_open _ = false

abbrev pub is_ok : ℤ → Bool
is_ok (pos zero) = true
is_ok _ = false

-- `none` stands for the use of a field before it was written, or for leaving an array.
unfoldable pub open_port :
    ℕ → Option ℕ → Option Termios → SerialPortImp → Serial → Option (ℤ × SerialPortImp × Serial)
open_port n_port answer old imp s = elim (serial_open n_port answer old s) [
  | none ↦ none
  | some (result, s') ↦
      let imp' = record imp { m_n_port = some n_port } in
      some (
        if is_error_open result
        then (fail_code, imp', s')
        else (succeed_code, record imp' { m_b_open = true }, s'))
]

unfoldable pub set_timeout : ℕ → SerialPortImp → SerialPortImp
set_timeout timeout imp = record imp { m_n_time_out = some timeout }

-- `set_para` on the port; `baud` is passed on as an unsigned number.
unfoldable pub set_lines : (port baud : ℕ) → Parity → ℕ → Stopbits → Serial → Option Serial
set_lines port baud parity databits stopbit s = elim (serial_set_speed port baud s) [
  | none ↦ none
  | some (ignored, s1) ↦
      Option.map (λ (r : ℤ × Serial). r.1)
        (serial_set_param port (parity_code parity) databits (stopbits_code stopbit) s1)
]

unfoldable pub set_para :
    ℕ → Parity → ℕ → Stopbits → ℕ → SerialPortImp → Serial → Option (ℤ × SerialPortImp × Serial)
set_para baud parity databits stopbit timeout imp s = elim imp.m_n_port [
  | none ↦ none
  | some port ↦
      Option.map (λ (s' : Serial). (succeed_code, set_timeout timeout imp, s'))
        (set_lines port baud parity databits stopbit s)
]

-- The number of bytes that were written is not looked at.
unfoldable pub write_port : Bytes → ℤ → SerialPortImp → Serial → Option (ℤ × SerialPortImp × Serial)
write_port buf result imp s = elim imp.m_n_port [
  | none ↦ none
  | some port ↦
      Option.map (λ (r : ℤ × Serial). (succeed_code, imp, r.1)) (serial_write port buf result s)
]

unfoldable pub clear_read_buff : SerialPortImp → Serial → Option (ℤ × SerialPortImp × Serial)
clear_read_buff imp s = elim imp.m_n_port [
  | none ↦ none
  | some port ↦
      Option.map (λ (r : ℤ × Serial). (if is_ok r.0 then succeed_code else fail_code, imp, r.1))
        (serial_clean_buff port s)
]

abbrev closed_with : SerialPortImp → ℤ × Serial → ℤ × SerialPortImp × Serial
closed_with imp (result, s) =
    if is_ok result then (succeed_code, record imp { m_b_open = false }, s) else (fail_code, imp, s)

unfoldable pub close_port : SerialPortImp → Serial → Option (ℤ × SerialPortImp × Serial)
close_port imp s =
    if imp.m_b_open
    then elim imp.m_n_port [
      | none ↦ none
      | some port ↦ Option.map (closed_with imp) (serial_close port s)
    ]
    else some (succeed_code, imp, s)

-- In microseconds, as `unsigned long long`.
unfoldable pub hn_difftime : (now starttime : ℕ) → ℕ
hn_difftime now starttime = ((now + 2 ^ 64) - starttime) % 2 ^ 64
