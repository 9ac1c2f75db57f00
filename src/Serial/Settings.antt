-- ===== src/Serial/Settings.antt =====
-- What `SerialSetParam`, `SerialFlowControl` and `SerialSetSpeed` of
-- Include/com/Source/linux_serial.cpp change in the settings of a port.
use hzrobot.Prelude.{ℕ, true, false, ◌==◌, leb, if◌then◌else◌, Option, some, none, List, [], ◌∷◌}
use hzrobot.Serial.{CharSize, cs5, cs6, cs7, cs8, Iflag, Termios, zero_cflag, zero_iflag}

unfoldable pub set_parity : ℕ → Termios → Termios
set_parity parity t =
    let c = t.c_cflag in
    if parity == 0
    then record t {
      c_cflag = record c { parenb = false };
      c_iflag = record (t.c_iflag) { inpck = false };
    }
    else if parity == 1
    then record t { c_cflag = record c { parodd = true; parenb = true } }
    else if parity == 2
    then record t { c_cflag = record c { parenb = true; parodd = false } }
    else if parity == 3
    then record t { c_cflag = record c { parenb = true; cmspar = true; parodd = false } }
    else if parity == 4
    then record t { c_cflag = record c { parenb = true; cmspar = true; parodd = true } }
    else t

-- The bits of CSIZE after they were cleared, which leaves those of CS5.
unfoldable pub size_bits : ℕ → CharSize
size_bits databits =
    if databits == 5
    then cs5
    else if databits == 6
    then cs6
    else if databits == 7
    then cs7
    else if databits == 8
    then cs8
    else cs5

unfoldable pub set_databits : ℕ → Termios → Termios
set_databits databits t = record t { c_cflag = record (t.c_cflag) { csize = size_bits databits } }

unfoldable pub set_stopbit : ℕ → Termios → Termios
set_stopbit stopbit t =
    if stopbit == 1
    then record t { c_cflag = record (t.c_cflag) { cstopb = false } }
    else if stopbit == 2
    then record t { c_cflag = record (t.c_cflag) { cstopb = true } }
    else t

unfoldable pub set_param : (parity databits stopbit : ℕ) → Termios → Termios
set_param parity databits stopbit t =
    set_stopbit stopbit (set_databits databits (set_parity parity t))

abbrev pub soft_iflag : Iflag → Iflag
soft_iflag i = record i { ixon = true; ixoff = true; ixany = true }

-- `!` of a mask that has a bit is 0, so that `&=` clears the whole word; `none` for another control.
unfoldable pub set_flow : ℕ → Termios → Option Termios
set_flow control t =
    if control == 0
    then some (record t { c_cflag = zero_cflag; c_iflag = zero_iflag })
    else if control == 1
    then some (record t { c_cflag = record (t.c_cflag) { crtscts = true } })
    else if control == 2
    then some (record t { c_iflag = soft_iflag t.c_iflag })
    else none

-- `speed_table1` from its second entry, and so the speeds for which `speed_table2` has constants.
abbrev pub speed_table : List ℕ
speed_table =
    50 ∷ 75 ∷ 110 ∷ 134 ∷ 150 ∷ 200 ∷ 300 ∷ 600 ∷ 1200 ∷ 1800 ∷ 2400 ∷ 4800 ∷ 9600 ∷ 19200 ∷ 38400
    ∷ 57600 ∷ 115200 ∷ 230400 ∷ 460800 ∷ 500000 ∷ 576000 ∷ 921600 ∷ []

-- The loop of `SerialSetSpeed` and the entry that it ends at; `none` stands for the entry behind
-- the table's end.
unfoldable pub pick_speed : List ℕ → ℕ → Option ℕ
pick_speed [] speed = none
pick_speed (s ∷ table) speed =
    let later = pick_speed table speed in if leb speed s then some s else later

-- `cfsetispeed` and `cfsetospeed`
abbrev pub set_speed : ℕ → Termios → Termios
set_speed speed t = record t { c_cflag = record (t.c_cflag) { speed = speed } }
