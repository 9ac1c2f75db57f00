-- ===== src/Serial/Reading.antt =====
-- `CSerialPortImp::read` of Include/com/Source/linux_serialport_imp.cpp.
pub mod Bounds
use hzrobot.Prelude.{
  ℕ, zero, suc, ◌+◌, ◌*◌, ◌^◌, Bool, true, false, ltb, leb, if◌then◌else◌, Option, some, none, List,
  [], ◌∷◌, ◌++◌, Bytes, length, ℤ, pos, negsuc,
}
use hzrobot.Serial.{Serial, serial_data_in_input_queue, serial_non_block_read}
use hzrobot.Serial.Device.{SerialPortImp, hn_difftime}

-- What a pass of the loop finds: the count of the input queue, what `read` puts into the buffer of
-- 1024 bytes, and the clock after the pause.
pub record Poll : Type 0 where
  pub queued : Option ℕ
  pub got : Option Bytes
  pub now : ℕ

-- What a pass comes to; `crashes` also stands for `memcpy` of as many bytes as -1 says.
pub data Polled : Type 0 where
  goes_on returns : Bool → Bytes → Serial → Polled
  crashes : Polled

abbrev pub is_positive : ℤ → Bool
is_positive (pos n) = ltb 0 n
is_positive (negsuc n) = false

module _ (port time1 : ℕ) (m_n_time_out : Option ℕ) where
  unfoldable pub read_bytes : Option Bytes → Bytes → Serial → Polled
  read_bytes got taken s = elim (serial_non_block_read port got s) [
    | none ↦ crashes
    | some (result, s') ↦ elim got [
      | none ↦ crashes
      | some bytes ↦ goes_on true (taken ++ bytes) s'
    ]
  ]

  -- The limit is computed as an `int`.
  unfoldable pub check_time : (now timeout : ℕ) → Bytes → Serial → Polled
  check_time now timeout taken s =
      if leb (2 ^ 31) (timeout * 1000)
      then crashes
      else if ltb (timeout * 1000) (hn_difftime now time1)
      then returns false taken s
      else goes_on false taken s

  -- Nothing is queued.
  unfoldable pub idle : ℕ → Bool → Bytes → Serial → Polled
  idle now b_start_read taken s =
      if b_start_read
      then returns true taken s
      else elim m_n_time_out [ none ↦ crashes | some timeout ↦ check_time now timeout taken s ]

  unfoldable pub poll_once : Poll → Bool → Bytes → Serial → Polled
  poll_once poll b_start_read taken s = elim (serial_data_in_input_queue port poll.queued s) [
    | none ↦ crashes
    | some (count, s') ↦
        if is_positive count
        then (if leb 1024 (length taken)
            then returns b_start_read taken s'
            else read_bytes poll.got taken s')
        else idle poll.now b_start_read taken s'
  ]

  -- `none` stands for more passes than the list has.
  unfoldable pub read_loop : List Poll → Bool → Bytes → Serial → Option Polled
  read_loop [] b_start_read taken s = none
  read_loop (poll ∷ polls) b_start_read taken s = elim (poll_once poll b_start_read taken s) [
    | goes_on b_start_read' taken' s' ↦ read_loop polls b_start_read' taken' s'
    | returns b_start_read' taken' s' ↦ some (returns b_start_read' taken' s')
    | crashes ↦ some crashes
  ]

-- The bytes that are copied to `buf`, whatever the length that was given; the result is their
-- number.
unfoldable pub read_port : (time1 : ℕ) → List Poll → SerialPortImp → Serial → Option Polled
read_port time1 polls imp s = elim imp.m_n_port [
  | none ↦ some crashes
  | some port ↦ read_loop port time1 imp.m_n_time_out polls false [] s
]
