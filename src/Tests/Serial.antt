-- ===== src/Tests/Serial.antt =====
-- Two ports, one of them held by another object.
use hzrobot.Prelude.{
  ℕ, zero, suc, ◌+◌, ◌≤◌, true, Option, some, none, List, [], ◌∷◌, ◌++◌, length, get_elem?, take,
  All, ◌≡◌, refl, inl, inr, arith, ℤ, pos,
}
use hzrobot.Serial.{
  Termios, Port, closes, sets, Serial, zero_cflag, zero_termios, start_settings, start, put_at, log,
  guard_fd, opened_port, open_entry, serial_open, serial_close, serial_ok,
}
use hzrobot.Serial.Settings.{
  set_parity, size_bits, set_databits, set_stopbit, set_param, set_flow, pick_speed, speed_table,
}
use hzrobot.Serial.Control.{
  put_settings, speed_entry, serial_set_speed, serial_set_param, serial_get_mode, mode_entry,
  get_mode, Use, starts, shuts, speeds, params, modes, use_port, use_ports,
}
use hzrobot.Serial.Held.{IsHeld, use_ports-IsHeld}
use hzrobot.Serial.Restored.{serial_close-restores}
use hzrobot.Serial.Device.{SerialPortImp, new_port, open_port, close_port, hn_difftime}
use hzrobot.Serial.Configured.{Configured}
use hzrobot.Serial.Reading.{Poll, read_port}
use hzrobot.Serial.Reading.Bounds.{IsRead, IsPaced, Returns, read_port-Returns}

-- The settings that the line had before.
abbrev found_settings : Termios
found_settings = record zero_termios { c_lflag = 5; vtime = 2 }

-- What is called on port 1 while port 2 is opened and closed.
abbrev uses : List (ℕ × Use)
uses =
    (2, starts (some 8) (some found_settings))
    ∷ (1, speeds 9000)
    ∷ (1, params 2 7 2)
    ∷ (1, starts (some 9) none)
    ∷ (2, shuts)
    ∷ (3, modes (some 8) (pos 0) (pos 2))
    ∷ []

abbrev state_of : Option Serial → Serial
state_of none = start
state_of (some s) = s

abbrev result_of : Option (ℤ × Serial) → Serial
result_of none = start
result_of (some (result, s)) = s

abbrev after_opening : Serial
after_opening = result_of (serial_open 1 (some 7) (some found_settings) start)

abbrev after_uses : Serial
after_uses = state_of (use_ports uses after_opening)

use_ports-IsHeld_example : IsHeld after_uses
unfolding use_ports use_port serial_open open_entry opened_port put_at log serial_set_speed
    speed_entry put_settings pick_speed serial_set_param guard_fd set_param set_parity set_databits
    size_bits set_stopbit serial_close serial_get_mode mode_entry get_mode
use_ports-IsHeld_example =
    use_ports-IsHeld ((1, starts (some 7) (some found_settings)) ∷ uses) start after_uses
      (λ n. refl) refl

serial_close-restores_example :
    (s : Serial) × (serial_close 1 after_uses ≡ some (serial_ok, s))
    × (s.calls ≡ after_uses.calls ++ sets 7 found_settings ∷ closes 7 ∷ [])
    × ((entry : Port) × (get_elem? s.ports 1 ≡ some entry) × (entry.fd ≡ none))
unfolding use_ports use_port serial_open open_entry opened_port put_at log serial_set_speed
    speed_entry put_settings pick_speed serial_set_param guard_fd set_param set_parity set_databits
    size_bits set_stopbit serial_close serial_get_mode mode_entry get_mode
serial_close-restores_example =
    serial_close-restores 1 7 found_settings uses start after_opening after_uses refl
      (inl (λ e. cc), (inr refl, (inr refl, (inr refl, (inl (λ e. cc), (inl (λ e. cc), tt)))))) refl

-- The port after `open` of an object for it.
abbrev device_of : Option (ℤ × SerialPortImp × Serial) → SerialPortImp
device_of none = new_port
device_of (some (result, imp, s)) = imp

abbrev serial_of : Option (ℤ × SerialPortImp × Serial) → Serial
serial_of none = start
serial_of (some (result, imp, s)) = s

abbrev opening : Option (ℤ × SerialPortImp × Serial)
opening = open_port 1 (some 7) (some found_settings) new_port start

-- A poll that finds three bytes, long after the start.
abbrev poll : Poll
poll = record { queued = some 3; got = some (1 ∷ 2 ∷ 3 ∷ []); now = 200000000 }

abbrev repeat : ℕ → List Poll
repeat zero = []
repeat (suc n) = poll ∷ repeat n

length-repeat : (n : ℕ) → length (repeat n) ≡ n
length-repeat zero = refl
length-repeat (suc n) = omega (arith, length-repeat n)

All-repeat : (n : ℕ) → All IsRead (repeat n)
All-repeat zero = tt
All-repeat (suc n) = ((omega arith, omega arith), All-repeat n)

IsPaced-repeat : (n k : ℕ) → k + n ≤ 2000 → IsPaced 0 k (repeat n)
unfolding hn_difftime
IsPaced-repeat zero k few = tt
IsPaced-repeat (suc n) k few = (omega (arith, few), IsPaced-repeat n (suc k) (omega (arith, few)))

read_port-Returns_example : Returns (
    read_port 0
      (repeat 1030)
      (record { m_n_port = some 1; m_n_time_out = some 200; m_b_open = true })
      after_opening)
unfolding serial_open open_entry opened_port put_at log
read_port-Returns_example =
    read_port-Returns 1 0 200 7 found_settings true (repeat 1030) after_opening
      (start_settings, refl) (All-repeat 1030) (IsPaced-repeat 1030 1 (omega arith)) (omega arith)
      (omega (arith, length-repeat 1030))

-- Flow control that is switched off clears the speed and the size of a character too.
abbrev cleared : Option Termios
cleared = set_flow 0 start_settings

no_flow_control_clears : cleared ≡ some (record start_settings { c_cflag = zero_cflag })
unfolding set_flow
no_flow_control_clears = refl

-- A speed above all leaves the table.
too_fast : serial_set_speed 1 1000000 after_opening ≡ none
unfolding serial_set_speed speed_entry pick_speed serial_open open_entry opened_port put_at log
too_fast = refl

-- Speeds below 50 are not B0.
slow : pick_speed speed_table 10 ≡ some 50
unfolding pick_speed
slow = refl

-- An object that fails to open a second port closes that port, which another object has opened, and
-- leaves its own open.
abbrev second : Option (ℤ × SerialPortImp × Serial)
second = elim (serial_open 2 (some 8) none after_opening) [
  | none ↦ none
  | some (result, s) ↦
      open_port 2 (some 9) none (record { m_n_port = some 1; m_n_time_out = none; m_b_open = true })
        s
]

abbrev fds : List Port → List (Option ℕ)
fds [] = []
fds (entry ∷ ports) = entry.fd ∷ fds ports

closes_the_other :
    take 3 (fds (serial_of (close_port (device_of second) (serial_of second))).ports)
    ≡ none ∷ some 7 ∷ none ∷ []
unfolding open_port serial_open open_entry opened_port put_at log close_port serial_close guard_fd
closes_the_other = refl
