-- ===== src/Serial/Entries.antt =====
-- How a function of Include/com/Source/linux_serial.cpp can change the table of the ports, as a
-- relation between the states before and after it.
use hzrobot.Prelude.{
  ℕ, suc, Bool, true, false, ◌==◌, if◌then◌else◌, Option, some, none, List, [], ◌∷◌, get_elem?, All,
  subst, ◌≡◌, refl, Option-cases, inl, inr, ℤ,
}
use hzrobot.Serial.{
  Port, Termios, Call, opens, fails_to_open, gets, flushes, closes, sets, queries_mode, Serial,
  start_settings, log, put_port, guard_fd, opened_port, open_entry, serial_open, serial_write,
  serial_non_block_read, serial_block_read, serial_close, serial_data_in_input_queue,
  serial_data_in_output_queue, body_close, breaks, writes, reads_now, reads_later, queries_input,
  queries_output,
}
use hzrobot.Serial.Settings.{set_flow, pick_speed, speed_table, set_speed, set_param}
use hzrobot.Serial.Control.{
  put_settings, flow_result, body_flow, body_param, serial_flow_control, speed_entry,
  serial_set_speed, serial_set_param, get_mode, mode_entry, serial_get_mode, serial_clean_buff, Use,
  starts, shuts, cleans, sends, takes, waits, counts_input, counts_output, flows, speeds, params,
  modes, use_port, use_ports,
}

-- How often the calls open or close a descriptor.
abbrev pub opened_times : ℕ → List Call → ℕ
opened_times n [] = 0
opened_times n (opens port fd ∷ calls) =
    let rest = opened_times n calls in if fd == n then suc rest else rest
opened_times n (_ ∷ calls) = opened_times n calls

abbrev pub closed_times : ℕ → List Call → ℕ
closed_times n [] = 0
closed_times n (closes fd ∷ calls) =
    let rest = closed_times n calls in if fd == n then suc rest else rest
closed_times n (_ ∷ calls) = closed_times n calls

-- The calls close each descriptor as often as they open it.
abbrev pub AreNeutral : List Call → Type 0
AreNeutral calls = (n : ℕ) → opened_times n calls ≡ closed_times n calls

abbrev pub is_shuts : Use → Bool
is_shuts shuts = true
is_shuts _ = false

-- A function on the port leaves the table alone, or replaces the new settings of an open port, or
-- opens a closed one, or, for `SerialClose`, closes an
-- open one.
pub data Step (port : ℕ) (u : Use) (s : Serial) : Serial → Type 0 where
  rests : Step port u s s
  logged : (calls : List Call) → AreNeutral calls → Step port u s (log calls s)
  set_up :
      (entry : Port) (settings : Termios) (calls : List Call)
      → AreNeutral calls
      → get_elem? s.ports port ≡ some entry
      → Step port u s (log calls (put_port port (record entry { newtio = settings }) s))
  opened_at :
      (entry : Port) (fd : ℕ) (old : Termios)
      → get_elem? s.ports port ≡ some entry
      → entry.fd ≡ none
      → Step port u s (
          log
            (opens port fd ∷ gets fd ∷ flushes fd ∷ sets fd start_settings ∷ [])
            (put_port port (record { fd = some fd; oldtio = old; newtio = start_settings }) s))
  closed_at :
      (entry : Port) (fd : ℕ)
      → get_elem? s.ports port ≡ some entry
      → entry.fd ≡ some fd
      → is_shuts u ≡ true
      → Step port u s (
          log
            (sets fd entry.oldtio ∷ closes fd ∷ [])
            (put_port port (record entry { fd = none }) s))

-- What holds of the state that a function leaves, where it leaves one.
abbrev pub Leaves : (Serial → Type 0) → Option (ℤ × Serial) → Type 0
Leaves P none = Unit
Leaves P (some (result, s)) = P s

module _ (port : ℕ) (u : Use) (s : Serial) where
  abbrev Steps : Option (ℤ × Serial) → Type 0
  Steps = Leaves (Step port u s)

  guard_fd-Steps :
      (found : Option Port) (body : ℕ → Port → Serial → ℤ × Serial)
      → get_elem? s.ports port ≡ found
      → ((fd : ℕ) (entry : Port)
          → get_elem? s.ports port ≡ some entry
          → entry.fd ≡ some fd
          → Step port u s (body fd entry s).1)
      → Steps (guard_fd found body s)
  unfolding guard_fd
  guard_fd-Steps none body found_at kept = tt
  guard_fd-Steps (some entry) body found_at kept = elim (Option-cases entry.fd) [
    | inl p ↦ rw p rests
    | inr (fd, p) ↦ rw p (kept fd entry found_at p)
  ]

  open_entry-Steps :
      (answer : Option ℕ) (old : Option Termios) (found : Option Port)
      → get_elem? s.ports port ≡ found
      → Steps (open_entry port answer old found s)
  unfolding open_entry opened_port
  open_entry-Steps answer old none found_at = tt
  open_entry-Steps none old (some entry) found_at = elim (Option-cases entry.fd) [
    | inl p ↦ rw p (logged (fails_to_open port ∷ []) (λ n. refl))
    | inr (fd, p) ↦ rw p rests
  ]
  open_entry-Steps (some new_fd) old (some entry) found_at = elim (Option-cases entry.fd) [
    | inl p ↦ rw p (opened_at entry new_fd _ found_at p)
    | inr (fd, p) ↦ rw p rests
  ]

  flow-Steps :
      (control : ℕ) (fd : ℕ) (entry : Port) (settings : Option Termios)
      → get_elem? s.ports port ≡ some entry
      → Step port u s (flow_result port fd entry settings s).1
  unfolding flow_result put_settings
  flow-Steps control fd entry none found_at = rests
  flow-Steps control fd entry (some settings) found_at =
      set_up entry settings (flushes fd ∷ sets fd settings ∷ []) (λ n. refl) found_at

  speed_entry-Steps :
      (picked : Option ℕ) (found : Option Port)
      → get_elem? s.ports port ≡ found
      → Steps (speed_entry port picked found s)
  unfolding speed_entry put_settings
  speed_entry-Steps picked none found_at = tt
  speed_entry-Steps none (some entry) found_at = elim (Option-cases entry.fd) [
    | inl p ↦ rw p rests
    | inr (fd, p) ↦ rw p tt
  ]
  speed_entry-Steps (some speed) (some entry) found_at = elim (Option-cases entry.fd) [
    | inl p ↦ rw p rests
    | inr (fd, p) ↦ rw p (
        set_up entry (set_speed speed entry.newtio) (sets fd (set_speed speed entry.newtio) ∷ [])
          (λ n. refl) found_at)
  ]

  mode_entry-Steps :
      (answer : Option ℕ) (ret mode : ℤ) (found : Option Port)
      → get_elem? s.ports port ≡ found
      → Steps (mode_entry port answer ret mode found s)
  unfolding mode_entry get_mode
  mode_entry-Steps answer ret mode none found_at = tt
  mode_entry-Steps none ret mode (some entry) found_at = elim (Option-cases entry.fd) [
    | inl p ↦ rw p (logged (fails_to_open port ∷ []) (λ n. refl))
    | inr (fd, p) ↦ rw p (logged (queries_mode fd ∷ []) (λ n. refl))
  ]
  mode_entry-Steps (some temp) ret mode (some entry) found_at = elim (Option-cases entry.fd) [
    | inl p ↦ rw p (logged (opens port temp ∷ queries_mode temp ∷ closes temp ∷ []) (λ n. refl))
    | inr (fd, p) ↦ rw p (logged (queries_mode fd ∷ []) (λ n. refl))
  ]

-- Every function of the file, whatever the system answers, is a step of the table.
pub use_port-Steps : (port : ℕ) (u : Use) (s : Serial) → Leaves (Step port u s) (use_port port u s)
unfolding use_port serial_open serial_close serial_clean_buff serial_write serial_non_block_read
    serial_block_read serial_data_in_input_queue serial_data_in_output_queue serial_flow_control
    serial_set_speed serial_set_param put_settings serial_get_mode
use_port-Steps port (starts answer old) s = open_entry-Steps port _ s answer old _ refl
use_port-Steps port shuts s =
    guard_fd-Steps port _ s _ (body_close port) refl (λ fd e g h. closed_at e fd g h refl)
use_port-Steps port cleans s =
    guard_fd-Steps port _ s _ _ refl (λ fd e g h. logged (breaks fd ∷ []) (λ n. refl))
use_port-Steps port (sends str result) s =
    guard_fd-Steps port _ s _ _ refl (λ fd e g h. logged (writes fd str ∷ []) (λ n. refl))
use_port-Steps port (takes answer) s =
    guard_fd-Steps port _ s _ _ refl (λ fd e g h. logged (reads_now fd ∷ []) (λ n. refl))
use_port-Steps port (waits answer) s =
    guard_fd-Steps port _ s _ _ refl (λ fd e g h. logged (reads_later fd ∷ []) (λ n. refl))
use_port-Steps port (counts_input answer) s =
    guard_fd-Steps port _ s _ _ refl (λ fd e g h. logged (queries_input fd ∷ []) (λ n. refl))
use_port-Steps port (counts_output answer) s =
    guard_fd-Steps port _ s _ _ refl (λ fd e g h. logged (queries_output fd ∷ []) (λ n. refl))
use_port-Steps port (flows control) s =
    guard_fd-Steps port _ s _ (body_flow port control) refl
      (λ fd e g h. flow-Steps port _ s control fd e (set_flow control e.newtio) g)
use_port-Steps port (speeds speed) s =
    speed_entry-Steps port _ s (pick_speed speed_table speed) _ refl
use_port-Steps port (params parity databits stopbit) s =
    guard_fd-Steps port _ s _ (body_param port parity databits stopbit) refl (λ fd e g h.
      set_up e (set_param parity databits stopbit e.newtio)
        (flushes fd ∷ sets fd (set_param parity databits stopbit e.newtio) ∷ []) (λ n. refl) g)
use_port-Steps port (modes answer ret mode) s = mode_entry-Steps port _ s answer ret mode _ refl

-- What holds of a state, where there is one.
abbrev AtEnd : (Serial → Type 0) → Option Serial → Type 0
AtEnd P none = Unit
AtEnd P (some s) = P s

-- What every allowed call keeps, a sequence of them keeps.
module _ (P : Serial → Type 0) (IsAllowed : ℕ × Use → Type 0)
    (keeps : (port : ℕ) (u : Use) (s : Serial)
      → IsAllowed (port, u)
      → P s
      → Leaves P (use_port port u s)) where
  rest-AtEnd :
      (uses : List (ℕ × Use)) (after : Option (ℤ × Serial))
      → ((s : Serial) → P s → AtEnd P (use_ports uses s))
      → Leaves P after
      → AtEnd P (elim after [ none ↦ none | some (result, s) ↦ use_ports uses s ])
  rest-AtEnd uses none later h = tt
  rest-AtEnd uses (some (result, s)) later h = later s h

  use_ports-AtEnd :
      (uses : List (ℕ × Use)) (s : Serial) → All IsAllowed uses → P s → AtEnd P (use_ports uses s)
  unfolding use_ports
  use_ports-AtEnd [] s allowed h = h
  use_ports-AtEnd ((port, u) ∷ uses) s (a, allowed) h =
      rest-AtEnd uses (use_port port u s) (λ s1 h1. use_ports-AtEnd uses s1 allowed h1)
        (keeps port u s a h)

  pub use_ports-keeps :
      (uses : List (ℕ × Use)) (s s' : Serial)
      → All IsAllowed uses
      → P s
      → use_ports uses s ≡ some s'
      → P s'
  use_ports-keeps uses s s' allowed h done = subst (AtEnd P) done (use_ports-AtEnd uses s allowed h)
