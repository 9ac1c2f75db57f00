-- ===== src/Serial/Line.antt =====
-- What the settings of Include/com/Source/linux_serial.cpp mean for the line, as termios describes
-- them.
use hzrobot.Prelude.{
  ℕ, zero, suc, ◌≤◌, Bool, true, false, if◌then◌else◌, ◌≡◌, ◌∙◌, refl, ◌⊎◌, inl, inr, arith,
}
use hzrobot.Serial.{CharSize, cs5, cs6, cs7, cs8, Termios}
use hzrobot.Serial.Settings.{set_parity, size_bits, set_databits, set_stopbit, set_param}

-- The parity bit of a character.
pub data ParityBit : Type 0 where
  absent for_odd for_even always_space always_mark : ParityBit

abbrev pub parity_bit : (parenb parodd cmspar : Bool) → ParityBit
parity_bit false parodd cmspar = absent
parity_bit true true false = for_odd
parity_bit true false false = for_even
parity_bit true false true = always_space
parity_bit true true true = always_mark

abbrev pub size_of : CharSize → ℕ
size_of cs5 = 5
size_of cs6 = 6
size_of cs7 = 7
size_of cs8 = 8

-- The speed, the parity bit, the bits of a character and the stop bits.
abbrev pub line_of : Termios → ℕ × ParityBit × ℕ × ℕ
line_of t =
    let c = t.c_cflag in
    (c.speed, parity_bit c.parenb c.parodd c.cmspar, size_of c.csize, if c.cstopb then 2 else 1)

-- What the numbers of `SerialSetParam` stand for.
abbrev pub parity_named : ℕ → ParityBit
parity_named zero = absent
parity_named (suc zero) = for_odd
parity_named (suc (suc zero)) = for_even
parity_named (suc (suc (suc zero))) = always_space
parity_named (suc (suc (suc (suc _)))) = always_mark

size_bits-size_of :
    (databits : ℕ) → 5 ≤ databits → databits ≤ 8 → size_of (size_bits databits) ≡ databits
unfolding size_bits
size_bits-size_of databits low high = ground arith

set_stopbit-line_of :
    (stopbit : ℕ) (t : Termios)
    → 1 ≤ stopbit
    → stopbit ≤ 2
    → line_of (set_stopbit stopbit t) ≡ ((line_of t).0, (line_of t).1, (line_of t).2, stopbit)
unfolding set_stopbit
set_stopbit-line_of zero t low high = absurd (omega (arith, low))
set_stopbit-line_of (suc zero) t low high = refl
set_stopbit-line_of (suc (suc zero)) t low high = refl
set_stopbit-line_of (suc (suc (suc n))) t low high = absurd (omega (arith, high))

set_parity-line_of :
    (parity : ℕ) (t : Termios)
    → parity ≤ 4
    → (t.c_cflag.cmspar ≡ false) ⊎ (3 ≤ parity)
    → parity_bit
        (set_parity parity t).c_cflag.parenb
        (set_parity parity t).c_cflag.parodd
        (set_parity parity t).c_cflag.cmspar
      ≡ parity_named parity
unfolding set_parity
set_parity-line_of zero t high clean = refl
set_parity-line_of (suc zero) t high (inl e) = rw e refl
set_parity-line_of (suc zero) t high (inr h) = absurd (omega (arith, h))
set_parity-line_of (suc (suc zero)) t high (inl e) = rw e refl
set_parity-line_of (suc (suc zero)) t high (inr h) = absurd (omega (arith, h))
set_parity-line_of (suc (suc (suc zero))) t high clean = refl
set_parity-line_of (suc (suc (suc (suc zero)))) t high clean = refl
set_parity-line_of (suc (suc (suc (suc (suc n))))) t high clean = absurd (omega (arith, high))

set_parity-speed :
    (parity : ℕ) (t : Termios) → parity ≤ 4 → (set_parity parity t).c_cflag.speed ≡ t.c_cflag.speed
unfolding set_parity
set_parity-speed zero t high = refl
set_parity-speed (suc zero) t high = refl
set_parity-speed (suc (suc zero)) t high = refl
set_parity-speed (suc (suc (suc zero))) t high = refl
set_parity-speed (suc (suc (suc (suc zero)))) t high = refl
set_parity-speed (suc (suc (suc (suc (suc n))))) t high = absurd (omega (arith, high))

-- `SerialSetParam` gives the line the parity, the bits of a character and the stop bits that it is
-- called with and leaves its speed, where the parity is at most 4, the bits are from 5 to 8, the
-- stop bits 1 or 2, and, for parities other than space and mark, CMSPAR was not set before.
pub set_param-line_of :
    (parity databits stopbit : ℕ) (t : Termios)
    → parity ≤ 4
    → 5 ≤ databits
    → databits ≤ 8
    → 1 ≤ stopbit
    → stopbit ≤ 2
    → (t.c_cflag.cmspar ≡ false) ⊎ (3 ≤ parity)
    → line_of (set_param parity databits stopbit t)
      ≡ (t.c_cflag.speed, parity_named parity, databits, stopbit)
unfolding set_param set_databits
set_param-line_of parity databits stopbit t high low_bits high_bits low_stop high_stop clean =
    set_stopbit-line_of stopbit _ low_stop high_stop
    ∙ (rw (size_bits-size_of databits low_bits high_bits)
        (rw (set_parity-line_of parity t high clean) (rw (set_parity-speed parity t high) refl)))
