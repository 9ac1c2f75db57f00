-- ===== src/Serial/Held.antt =====
-- The descriptors of the table of Include/com/Source/linux_serial.cpp: none is lost or closed twice.
use hzrobot.Prelude.{
  ℕ, zero, suc, ◌+◌, ◌==◌, if◌then◌else◌, Option, some, none, List, [], ◌∷◌, ◌++◌, get_elem?, All,
  ap, ◌≡◌, arith, ℤ,
}
use hzrobot.Serial.{
  Port, Call, opens, fails_to_open, gets, flushes, closes, sets, reads_now, reads_later,
  queries_input, queries_output, queries_mode, breaks, writes, Serial, start_settings, put_at, log,
}
use hzrobot.Serial.Control.{Use, use_port, use_ports}
use hzrobot.Serial.Entries.{
  opened_times, closed_times, Step, rests, logged, set_up, opened_at, closed_at, Leaves,
  use_port-Steps, use_ports-keeps,
}

abbrev pub holds : ℕ → Option ℕ → ℕ
holds n none = 0
holds n (some fd) = if fd == n then 1 else 0

-- The entries of the table that hold the descriptor.
abbrev pub held : ℕ → List Port → ℕ
held n [] = 0
held n (entry ∷ ports) = holds n entry.fd + held n ports

-- Each descriptor was opened as often as it was closed, and once more for each entry that holds it.
abbrev pub IsHeld : Serial → Type 0
IsHeld s = (n : ℕ) → opened_times n s.calls ≡ closed_times n s.calls + held n s.ports

held-put_at :
    (n i : ℕ) (ports : List Port) (old entry : Port)
    → get_elem? ports i ≡ some old
    → held n (put_at i entry ports) + holds n old.fd ≡ held n ports + holds n entry.fd
unfolding put_at
held-put_at n i [] old entry h = cc
held-put_at n zero (p ∷ ports) old entry h =
    let e : holds n p.fd ≡ holds n old.fd =
      ap (λ (o : Option Port). elim o [ none ↦ 0 | some q ↦ holds n q.fd ]) h in
    omega (arith, e)
held-put_at n (suc i) (p ∷ ports) old entry h = omega (arith, held-put_at n i ports old entry h)

module _ (n : ℕ) where
  opened_times-append :
      (xs ys : List Call) → opened_times n (xs ++ ys) ≡ opened_times n xs + opened_times n ys
  opened_times-append [] ys = omega arith
  opened_times-append (opens port fd ∷ xs) ys = ground (arith, opened_times-append xs ys)
  opened_times-append (fails_to_open port ∷ xs) ys = opened_times-append xs ys
  opened_times-append (gets fd ∷ xs) ys = opened_times-append xs ys
  opened_times-append (flushes fd ∷ xs) ys = opened_times-append xs ys
  opened_times-append (closes fd ∷ xs) ys = opened_times-append xs ys
  opened_times-append (reads_now fd ∷ xs) ys = opened_times-append xs ys
  opened_times-append (reads_later fd ∷ xs) ys = opened_times-append xs ys
  opened_times-append (queries_input fd ∷ xs) ys = opened_times-append xs ys
  opened_times-append (queries_output fd ∷ xs) ys = opened_times-append xs ys
  opened_times-append (queries_mode fd ∷ xs) ys = opened_times-append xs ys
  opened_times-append (breaks fd ∷ xs) ys = opened_times-append xs ys
  opened_times-append (sets fd settings ∷ xs) ys = opened_times-append xs ys
  opened_times-append (writes fd str ∷ xs) ys = opened_times-append xs ys

  closed_times-append :
      (xs ys : List Call) → closed_times n (xs ++ ys) ≡ closed_times n xs + closed_times n ys
  closed_times-append [] ys = omega arith
  closed_times-append (closes fd ∷ xs) ys = ground (arith, closed_times-append xs ys)
  closed_times-append (fails_to_open port ∷ xs) ys = closed_times-append xs ys
  closed_times-append (gets fd ∷ xs) ys = closed_times-append xs ys
  closed_times-append (flushes fd ∷ xs) ys = closed_times-append xs ys
  closed_times-append (opens port fd ∷ xs) ys = closed_times-append xs ys
  closed_times-append (reads_now fd ∷ xs) ys = closed_times-append xs ys
  closed_times-append (reads_later fd ∷ xs) ys = closed_times-append xs ys
  closed_times-append (queries_input fd ∷ xs) ys = closed_times-append xs ys
  closed_times-append (queries_output fd ∷ xs) ys = closed_times-append xs ys
  closed_times-append (queries_mode fd ∷ xs) ys = closed_times-append xs ys
  closed_times-append (breaks fd ∷ xs) ys = closed_times-append xs ys
  closed_times-append (sets fd settings ∷ xs) ys = closed_times-append xs ys
  closed_times-append (writes fd str ∷ xs) ys = closed_times-append xs ys

-- The calls of a step and the change of the table weigh the same for a descriptor.
log-IsHeld :
    (s : Serial) (calls : List Call) (ports : List Port)
    → ((n : ℕ) → opened_times n calls + held n s.ports ≡ closed_times n calls + held n ports)
    → IsHeld s
    → IsHeld (log calls (record { ports = ports; calls = s.calls }))
unfolding log
log-IsHeld s calls ports weigh h n =
    omega (
      arith,
      weigh n,
      h n,
      opened_times-append n s.calls calls,
      closed_times-append n s.calls calls,
    )

Step-IsHeld : (port : ℕ) (u : Use) (s s' : Serial) → Step port u s s' → IsHeld s → IsHeld s'
Step-IsHeld port u s _ rests h = h
Step-IsHeld port u s _ (logged calls neutral) h =
    log-IsHeld s calls s.ports (λ n. omega (arith, neutral n)) h
Step-IsHeld port u s _ (set_up entry settings calls neutral found) h =
    log-IsHeld s calls _
      (λ n. omega (
        arith,
        neutral n,
        held-put_at n port s.ports entry (record entry { newtio = settings }) found,
      ))
      h
Step-IsHeld port u s _ (opened_at entry fd old found is_closed) h =
    log-IsHeld s _ _
      (λ n.
        let put =
          held-put_at n port s.ports entry
            (record { fd = some fd; oldtio = old; newtio = start_settings }) found in
        let none_held : holds n entry.fd ≡ 0 = ap (holds n) is_closed in
        ground (arith, put, none_held))
      h
Step-IsHeld port u s _ (closed_at entry fd found is_open _) h =
    log-IsHeld s _ _
      (λ n.
        let put = held-put_at n port s.ports entry (record entry { fd = none }) found in
        let one_held : holds n entry.fd ≡ holds n (some fd) = ap (holds n) is_open in
        ground (arith, put, one_held))
      h

Leaves-IsHeld :
    (port : ℕ) (u : Use) (s : Serial) (after : Option (ℤ × Serial))
    → IsHeld s
    → Leaves (Step port u s) after
    → Leaves IsHeld after
Leaves-IsHeld port u s none h step = tt
Leaves-IsHeld port u s (some (result, s')) h step = Step-IsHeld port u s s' step h

abbrev IsAny : ℕ × Use → Type 0
IsAny u = Unit

All-IsAny : (uses : List (ℕ × Use)) → All IsAny uses
All-IsAny [] = tt
All-IsAny (u ∷ uses) = (tt, All-IsAny uses)

-- Over any calls of the functions on the ports that leave no array, if each descriptor was opened as
-- often as it was closed and once more for each entry of the table that holds it, then that is so
-- at the end.
pub use_ports-IsHeld :
    (uses : List (ℕ × Use)) (s s' : Serial) → IsHeld s → use_ports uses s ≡ some s' → IsHeld s'
use_ports-IsHeld uses s s' h done =
    use_ports-keeps IsHeld IsAny
      (λ port u s a h. Leaves-IsHeld port u s (use_port port u s) h (use_port-Steps port u s)) uses
      s s' (All-IsAny uses) h done
