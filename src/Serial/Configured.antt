-- ===== src/Serial/Configured.antt =====
-- Opening a port and setting it up with `CSerialPortImp` of
-- Include/com/Source/linux_serialport_imp.cpp.
use hzrobot.Prelude.{ℕ, Option, some, none, List, [], ◌∷◌, ◌++◌, get_elem?, ◌≡◌, ℤ}
use hzrobot.Serial.{Termios, Serial, Call, sets}
use hzrobot.Serial.Settings.{speed_table}
use hzrobot.Serial.Device.{
  Parity, Stopbits, parity_code, stopbits_code, SerialPortImp, succeed_code, set_para,
}
use hzrobot.Serial.Speeds.{IsLeast}
use hzrobot.Serial.Line.{line_of, parity_named}

-- The port is open and its new settings are these.
abbrev HasSettings : (port fd : ℕ) → Termios → Serial → Type 0
HasSettings port fd new s =
    (old : Termios) × (get_elem? s.ports port
      ≡ some (record { fd = some fd; oldtio = old; newtio = new }))

-- After the calls, the settings were made the line's.
abbrev Ends : (port fd : ℕ) → Termios → Serial → Type 0
Ends port fd settings s =
    HasSettings port fd settings s
    × ((calls : List Call) × (s.calls ≡ calls ++ sets fd settings ∷ []))

-- What the object's port is set to.
abbrev pub Configured :
    (port fd baud : ℕ) → Parity → ℕ → Stopbits → Option (ℤ × SerialPortImp × Serial) → Type 0
Configured port fd baud parity databits stopbit result =
    (imp : SerialPortImp) × (s : Serial) × (calls : List Call) × (settings : Termios) × (speed : ℕ)
    × (result ≡ some (succeed_code, imp, s))
    × (s.calls ≡ calls ++ sets fd settings ∷ [])
    × IsLeast baud speed speed_table
    × (line_of settings
        ≡ (speed, parity_named (parity_code parity), databits, stopbits_code stopbit))

module _ (port fd baud : ℕ) (parity : Parity) (databits : ℕ) (stopbit : Stopbits)
    (timeout : ℕ) where
  -- What is to hold of a call of `open` for `set_para` after it.
  abbrev ThenConfigured : Option (ℤ × SerialPortImp × Serial) → Type 0
  ThenConfigured none = Unit
  ThenConfigured (some (result, imp, s)) =
      result ≡ succeed_code
      → Configured port fd baud parity databits stopbit
          (set_para baud parity databits stopbit timeout imp s)
