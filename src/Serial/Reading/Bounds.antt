-- ===== src/Serial/Reading/Bounds.antt =====
-- How long `CSerialPortImp::read` runs and how much it copies.
use hzrobot.Prelude.{
  ℕ, suc, ◌+◌, ◌-◌, ◌*◌, ◌^◌, ◌≤◌, ◌<◌, Bool, true, false, ltb, leb, Option, some, none, List, [],
  ◌∷◌, ◌++◌, Bytes, length, length-append, All, ◌≡◌, refl, inl, inr, arith, Bool-cases,
  Option-cases, subst,
}
use hzrobot.Serial.{
  Serial, Termios, Call, queries_input, reads_now, guard_fd, log, serial_data_in_input_queue,
  serial_non_block_read, count_queued, count_read,
}
use hzrobot.Serial.Device.{hn_difftime}
use hzrobot.Serial.Restored.{Holds}
use hzrobot.Serial.Reading.{
  Poll, Polled, goes_on, returns, is_positive, read_bytes, idle, check_time, poll_once, read_loop,
  read_port,
}

leb-false : (a b : ℕ) → b < a → leb a b ≡ false
leb-false a b h = ground arith

abbrev pub IsGiven : Option Bytes → Type 0
IsGiven none = ⊥
IsGiven (some bytes) = (0 < length bytes) × (length bytes ≤ 1024)

-- A read gives some bytes, and not more than it is asked for.
abbrev pub IsRead : Poll → Type 0
IsRead poll = IsGiven poll.got

-- The clock of the k-th pass shows that k pauses of 100 ms have passed.
abbrev pub IsPaced : (time1 k : ℕ) → List Poll → Type 0
IsPaced time1 k [] = Unit
IsPaced time1 k (poll ∷ polls) =
    (100000 * k ≤ hn_difftime poll.now time1) × IsPaced time1 (suc k) polls

-- The loop returns at most 2047 bytes.
abbrev pub Returns : Option Polled → Type 0
Returns result =
    (b_start_read : Bool) × (bytes : Bytes) × (s : Serial) × (result
      ≡ some (returns b_start_read bytes s))
    × (length bytes ≤ 2047)

module _ (port fd : ℕ) (t : Termios) where
  log-Holds : (calls : List Call) (s : Serial) → Holds port fd t s → Holds port fd t (log calls s)
  unfolding log
  log-Holds calls s h = h

module _ (port time1 : ℕ) (limit : Option ℕ) (fd : ℕ) (t : Termios) where
  abbrev loop : List Poll → Bool → Bytes → Serial → Option Polled
  loop = read_loop port time1 limit

  queue_lem :
      (queued : Option ℕ) (s : Serial)
      → Holds port fd t s
      → serial_data_in_input_queue port queued s
        ≡ some (count_queued queued, log (queries_input fd ∷ []) s)
  unfolding serial_data_in_input_queue guard_fd
  queue_lem queued s (new, found) = rw found refl

  read_lem :
      (got : Option Bytes) (s : Serial)
      → Holds port fd t s
      → serial_non_block_read port got s ≡ some (count_read got, log (reads_now fd ∷ []) s)
  unfolding serial_non_block_read guard_fd
  read_lem got s (new, found) = rw found refl

  -- A pass in which bytes are queued and the buffer is not full.
  takes :
      (poll : Poll) (b : Bool) (taken bytes : Bytes) (s : Serial)
      → Holds port fd t s
      → is_positive (count_queued poll.queued) ≡ true
      → leb 1024 (length taken) ≡ false
      → poll.got ≡ some bytes
      → poll_once port time1 limit poll b taken s
        ≡ goes_on true (taken ++ bytes) (log (reads_now fd ∷ []) (log (queries_input fd ∷ []) s))
  unfolding poll_once read_bytes
  takes poll b taken bytes s is_open has room gives =
      rw (queue_lem poll.queued s is_open, poll_once)
        (rw has (
          rw room (
            rw
              (
                read_lem poll.got (log (queries_input fd ∷ []) s)
                    (log-Holds port fd t (queries_input fd ∷ []) s is_open),
                read_bytes,
              )
              (rw gives refl))))

  fills :
      (poll : Poll) (b : Bool) (taken : Bytes) (s : Serial)
      → Holds port fd t s
      → is_positive (count_queued poll.queued) ≡ true
      → leb 1024 (length taken) ≡ true
      → poll_once port time1 limit poll b taken s ≡ returns b taken (log (queries_input fd ∷ []) s)
  unfolding poll_once
  fills poll b taken s is_open has full =
      rw (queue_lem poll.queued s is_open, poll_once) (rw has (rw full refl))

  idles :
      (poll : Poll) (b : Bool) (taken : Bytes) (s : Serial)
      → Holds port fd t s
      → is_positive (count_queued poll.queued) ≡ false
      → poll_once port time1 limit poll b taken s
        ≡ idle port time1 limit poll.now b taken (log (queries_input fd ∷ []) s)
  unfolding poll_once
  idles poll b taken s is_open has_not =
      rw (queue_lem poll.queued s is_open, poll_once) (rw has_not refl)

  -- The passes after the first bytes.
  read_loop-started :
      (polls : List Poll) (taken : Bytes) (s : Serial)
      → Holds port fd t s
      → All IsRead polls
      → 1024 - length taken < length polls
      → length taken ≤ 2047
      → Returns (loop polls true taken s)
  unfolding read_loop idle
  read_loop-started [] taken s is_open reads enough small = absurd (omega (arith, enough))
  read_loop-started (poll ∷ polls) taken s is_open (read, reads) enough small =
      let polled = log-Holds port fd t (queries_input fd ∷ []) s is_open in
      elim (Bool-cases (is_positive (count_queued poll.queued))) [
        | inr has_not ↦
            rw (idles poll true taken s is_open has_not, read_loop) (_, _, _, refl, small)
        | inl has ↦ elim (Bool-cases (leb 1024 (length taken))) [
          | inl full ↦
              rw (fills poll true taken s is_open has full, read_loop) (_, _, _, refl, small)
          | inr room ↦ elim (Option-cases poll.got) [
            | inl p ↦ absurd (subst IsGiven p read)
            | inr (bytes, p) ↦
                let (some_bytes, few) : IsGiven (some bytes) = subst IsGiven p read in
                rw (takes poll true taken bytes s is_open has room p, read_loop)
                  (read_loop-started polls (taken ++ bytes) _
                    (log-Holds port fd t (reads_now fd ∷ []) _ polled) reads
                    (ground (arith, enough, some_bytes, room, length-append taken bytes))
                    (ground (arith, few, room, length-append taken bytes)))
          ]
        ]
      ]

module _ (port time1 timeout : ℕ) (fd : ℕ) (t : Termios) where
  abbrev waiting : List Poll → Serial → Option Polled
  waiting polls s = read_loop port time1 (some timeout) polls false [] s

  read_loop-waiting :
      (polls : List Poll) (k : ℕ) (s : Serial)
      → Holds port fd t s
      → All IsRead polls
      → IsPaced time1 k polls
      → timeout * 1000 < 2 ^ 31
      → timeout * 1000 < 100000 * (k + length polls - 1025)
      → 1025 ≤ length polls
      → Returns (waiting polls s)
  unfolding read_loop idle check_time
  read_loop-waiting [] k s is_open reads paced no_overflow enough many =
      absurd (omega (arith, many))
  read_loop-waiting (poll ∷ polls) k s is_open (read, reads) (pace, paced) no_overflow enough many =
      let polled = log-Holds port fd t (queries_input fd ∷ []) s is_open in
      elim (Bool-cases (is_positive (count_queued poll.queued))) [
        | inr has_not ↦ elim (Bool-cases (ltb (timeout * 1000) (hn_difftime poll.now time1))) [
          | inl late ↦
              rw
                (
                  idles port time1 (some timeout) fd t poll false [] s is_open has_not,
                  read_loop,
                  check_time,
                )
                (rw (leb-false _ _ no_overflow) (rw late (_, _, _, refl, omega arith)))
          | inr early ↦
              rw (idles port time1 (some timeout) fd t poll false [] s is_open has_not, read_loop)
                (rw (leb-false _ _ no_overflow) (
                  rw early (
                    read_loop-waiting polls (suc k) _ polled reads paced no_overflow
                      (omega (arith, enough)) (ground (arith, early, pace, enough)))))
        ]
        | inl has ↦ elim (Option-cases poll.got) [
          | inl p ↦ absurd (subst IsGiven p read)
          | inr (bytes, p) ↦
              let (some_bytes, few) : IsGiven (some bytes) = subst IsGiven p read in
              rw
                (
                  takes port time1 (some timeout) fd t poll false [] bytes s is_open has refl p,
                  read_loop,
                )
                (read_loop-started port time1 (some timeout) fd t polls bytes _
                  (log-Holds port fd t (reads_now fd ∷ []) _ polled) reads
                  (ground (arith, enough, some_bytes, many)) (ground (arith, few)))
        ]
      ]

-- `read` of an object whose port is open returns at most 2047 bytes within 1025 passes of its loop and
-- one more for each whole 100 ms of its time-out, where the time-out's microseconds are an `int`,
-- each read gives from 1 to 1024 bytes and the clock shows that the pauses have passed.
pub read_port-Returns :
    (port time1 timeout fd : ℕ) (t : Termios) (m_b_open : Bool) (polls : List Poll) (s : Serial)
    → Holds port fd t s
    → All IsRead polls
    → IsPaced time1 1 polls
    → timeout * 1000 < 2 ^ 31
    → timeout * 1000 < 100000 * (length polls - 1024)
    → Returns (
        read_port time1 polls
          (record { m_n_port = some port; m_n_time_out = some timeout; m_b_open = m_b_open })
          s)
unfolding read_port
read_port-Returns port time1 timeout fd t m_b_open polls s is_open reads paced no_overflow enough =
    read_loop-waiting port time1 timeout fd t polls 1 s is_open reads paced no_overflow
      (omega (arith, enough)) (omega (arith, enough))
