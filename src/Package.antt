-- ===== src/Package.antt =====
-- `serial::encode_size`, `serial::decode_size` and `package_t` of Include/util/tool.hpp, at
-- `size_t`, which has 64 bits.
pub mod RoundTrip
use mathlib.Core.WellFounded.{Acc}
use hzrobot.Prelude.{
  ℕ, suc, ◌+◌, ◌-◌, ◌*◌, ◌/◌, ◌%◌, ◌^◌, ◌<◌, Bool, true, false, ltb, leb, ◌==◌, if◌then◌else◌, List,
  [], ◌∷◌, ◌++◌, Bytes, drop, lt_wf, arith, dec_lt, dite, length,
}

-- The loop ends: shifting a number that keeps a bit makes it smaller.
pub shift_lt : (size : ℕ) → 0 < size / 2 ^ 7 → size / 2 ^ 7 < size
shift_lt size h = omega arith

-- `do { ch = size & 127; if (size >>= 7) ch |= 0x80; buf += ch; } while (size)`
unfoldable pub encode_acc : (size : ℕ) → Acc ◌<◌ size → Bytes
encode_acc size (Acc.intro _ smaller) =
    dite (dec_lt 0 (size / 2 ^ 7))
      (λ h.
        (size % 2 ^ 7 + 0x80)
        ∷ encode_acc (size / 2 ^ 7) (smaller (size / 2 ^ 7) (shift_lt size h)))
      (λ _. (size % 2 ^ 7) ∷ [])

unfoldable pub encode_size : ℕ → Bytes
unfolding encode_acc lt_wf dec_lt
encode_size size = encode_acc size (lt_wf.apply size)

-- What `decode_size` does: it stores a value and returns the number of bytes read, or returns 0;
-- `undefined` is a shift by 64 or more, which C++ leaves undefined.
pub data Decoded : Type 0 where
  done : (value read : ℕ) → Decoded
  refused undefined : Decoded

-- The loop with `i` bytes read, on the bytes that are left of the `len`. The bits of `value` lie
-- below those that are shifted in, so `|` is `+`; the shift drops what passes 64 bits.
unfoldable pub decode_loop : ℕ → ℕ → Bytes → Decoded
decode_loop i value [] = refused
decode_loop i value (b ∷ rest) =
    let value' = value + b % 2 ^ 7 * 2 ^ (7 * i) % 2 ^ 64 in
    let more = decode_loop (i + 1) value' rest in
    let next : Decoded = if ltb b 0x80 then done value' (i + 1) else more in
    if ltb (7 * i) 64 then next else undefined

unfoldable pub decode_size : Bytes → Decoded
unfolding decode_loop
decode_size data_ = decode_loop 0 0 data_

pub record Package : Type 0 where
  pub length : ℕ
  pub identify : ℕ

unfoldable pub encode_package : Package → Bytes
encode_package p = encode_size p.length ++ encode_size p.identify

-- `package_t::decode`: the package and the number of bytes read.
pub data Unpacked : Type 0 where
  unpacked : Package → ℕ → Unpacked
  refused undefined : Unpacked

second : ℕ → ℕ → Decoded → Unpacked
second len cost (done identify cost2) =
    unpacked (record { length = len; identify = identify }) (cost + cost2)
second len cost refused = Unpacked.refused
second len cost undefined = Unpacked.undefined

first : Bytes → Decoded → Unpacked
first data_ (done len cost) = second len cost (decode_size (drop cost data_))
first data_ refused = Unpacked.refused
first data_ undefined = Unpacked.undefined

unfoldable pub decode_package : Bytes → Unpacked
unfolding first second
decode_package data_ = first data_ (decode_size data_)
