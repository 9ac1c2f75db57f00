-- ===== src/Package/RoundTrip.antt =====
-- Packages come back from their bytes.
use hzrobot.Prelude.{
  ℕ, ◌+◌, ◌*◌, ◌/◌, ◌%◌, ◌^◌, ◌<◌, ◌≤◌, ◌≡◌, refl, ap, ap₂, ◌∙◌, [], ◌∷◌, ◌++◌, Bytes, drop-append,
  append_assoc, length-append, lt_wf, arith, length, All, dec_lt, lt→ltb, ltb-false,
}
use mathlib.Core.WellFounded.{Acc}
use mathlib.Core.Logic.{dif_pos, dif_neg}
use native.Mathlib.Numerals.{towards_suc}
use native.Mathlib.Bridge.{le_prop}
use hzrobot.Package.{
  shift_lt, encode_acc, encode_size, Decoded, done, refused, undefined, decode_loop, decode_size,
  Package, unpacked, encode_package, decode_package,
}

-- Seven bits further, the weight is 128 times as large.
pow_seven : (i : ℕ) → 2 ^ (7 * (i + 1)) ≡ 128 * 2 ^ (7 * i)
pow_seven i = let e : 7 * (i + 1) ≡ 7 * i + 7 = omega arith in rw e (simp towards_suc (omega arith))

weight_split : (size m : ℕ) → size * m ≡ size % 128 * m + size / 128 * (128 * m)
weight_split size m =
    let e : size ≡ size % 128 + size / 128 * 128 = omega arith in
    omega (arith, ap (λ (t : ℕ). t * m) e)

-- Where seven more bits are left, they fit the word.
index_bound : (i size : ℕ) → i < 10 → 0 < size / 128 → size * 2 ^ (7 * i) < 2 ^ 64 → i + 1 < 10
index_bound i size hi h fits = elim (dec_lt (i + 1) 10) [
  | yes p ↦ p
  | no p ↦
      let e : i ≡ 9 = omega arith in
      let fits' : size * 2 ^ (7 * 9) < 2 ^ 64 = rw e at fits in absurd (omega arith)
]

module _ (i value b : ℕ) (rest : Bytes) (hi : i < 10) where
  decode_loop_last :
      b < 128
      → decode_loop i value (b ∷ rest) ≡ done (value + b % 2 ^ 7 * 2 ^ (7 * i) % 2 ^ 64) (i + 1)
  unfolding decode_loop
  decode_loop_last h = rw (lt→ltb (7 * i) 64 (omega arith), lt→ltb b 128 h)

  decode_loop_more :
      128 ≤ b
      → decode_loop i value (b ∷ rest)
        ≡ decode_loop (i + 1) (value + b % 2 ^ 7 * 2 ^ (7 * i) % 2 ^ 64) rest
  unfolding decode_loop
  decode_loop_more h = rw (lt→ltb (7 * i) 64 (omega arith), ltb-false b 128 h)

-- The loop of `decode_size` reads an encoded number, whatever stands behind it.
decode_loop-encode_acc :
    (i value size : ℕ) (w : Acc ◌<◌ size) (rest : Bytes)
    → i < 10
    → size * 2 ^ (7 * i) < 2 ^ 64
    → decode_loop i value (encode_acc size w ++ rest)
      ≡ done (value + size * 2 ^ (7 * i)) (i + length (encode_acc size w))
unfolding encode_acc
decode_loop-encode_acc i value size (Acc.intro _ smaller) rest hi fits =
    elim (dec_lt 0 (size / 2 ^ 7)) [
      | yes p ↦
          let split = weight_split size (2 ^ (7 * i)) in
          let weight = pow_seven i in
          let tail = encode_acc (size / 2 ^ 7) (smaller (size / 2 ^ 7) (shift_lt size p)) ++ rest in
          let digit : (size % 128 + 128) % 128 ≡ size % 128 = omega arith in
          let kept : (size % 128 + 128) % 128 * 2 ^ (7 * i) % 2 ^ 64 ≡ size % 128 * 2 ^ (7 * i) =
            rw digit (omega arith) in
          let ih =
            decode_loop-encode_acc (i + 1) (value + size % 128 * 2 ^ (7 * i)) (size / 2 ^ 7)
              (smaller (size / 2 ^ 7) (shift_lt size p)) rest (index_bound i size hi p fits)
              (rw weight (omega arith)) in
          rw (dif_pos (dec_lt 0 (size / 2 ^ 7)) le_prop p) (
            decode_loop_more i value (size % 128 + 128) tail hi (omega arith)
            ∙ ap (λ t. decode_loop (i + 1) (value + t) tail) kept
            ∙ ih
            ∙ ap₂ done (rw weight (omega arith)) (omega arith))
      | no p ↦ rw (dif_neg (dec_lt 0 (size / 2 ^ 7)) p) (
          decode_loop_last i value (size % 128) rest hi (omega arith)
          ∙ let whole : size % 128 % 2 ^ 7 ≡ size = omega arith in
            let kept : size % 128 % 2 ^ 7 * 2 ^ (7 * i) % 2 ^ 64 ≡ size * 2 ^ (7 * i) =
              ap (λ t. t * 2 ^ (7 * i) % 2 ^ 64) whole ∙ omega arith in
            ap₂ done (omega arith) refl)
    ]

-- `decode_size` reads back every 64-bit size, with the number of its bytes, whatever bytes follow.
pub decode_size-encode_size :
    (size : ℕ) (rest : Bytes)
    → size < 2 ^ 64
    → decode_size (encode_size size ++ rest) ≡ done size (length (encode_size size))
unfolding decode_size encode_size
decode_size-encode_size size rest h =
    decode_loop-encode_acc 0 0 size (lt_wf.apply size) rest (omega arith) (omega arith)
    ∙ ap₂ done (omega arith) (omega arith)

-- `package_t::decode` reads back every package, with the number of bytes that `encode` wrote,
-- whatever bytes follow.
pub decode_package-encode_package :
    (p : Package) (rest : Bytes)
    → p.length < 2 ^ 64
    → p.identify < 2 ^ 64
    → decode_package (encode_package p ++ rest) ≡ unpacked p (length (encode_package p))
unfolding decode_package encode_package
decode_package-encode_package p rest hl hi = rw append_assoc (
    rw
      (
        decode_size-encode_size p.length _ hl,
        drop-append,
        decode_size-encode_size p.identify rest hi,
      )
      (ap₂ unpacked refl
        (omega (arith, length-append (encode_size p.length) (encode_size p.identify)))))

abbrev pub IsContinued : ℕ → Type 0
IsContinued b = 0x80 ≤ b

decode_loop_overlong :
    (i value : ℕ) (bs : Bytes) (b : ℕ) (rest : Bytes)
    → i + length bs ≡ 10
    → All IsContinued bs
    → decode_loop i value (bs ++ b ∷ rest) ≡ undefined
decode_loop_overlong i value [] b rest e h =
    unfold decode_loop in rw (ltb-false (7 * i) 64 (omega arith))
decode_loop_overlong i value (c ∷ bs) b rest e (h, hs) =
    decode_loop_more i value c _ (omega arith) h
    ∙ decode_loop_overlong (i + 1) _ bs b rest (omega arith) hs

-- Ten bytes with the continuation bit and one more byte make `decode_size` shift a 64-bit number
-- by 70: the number of bytes is not bounded.
decode_size_overlong :
    (bs : Bytes) (b : ℕ) (rest : Bytes)
    → length bs ≡ 10
    → All IsContinued bs
    → decode_size (bs ++ b ∷ rest) ≡ undefined
unfolding decode_size
decode_size_overlong bs b rest e h = decode_loop_overlong 0 0 bs b rest (omega arith) h

decode_loop_truncated :
    (i value : ℕ) (bs : Bytes)
    → i + length bs ≤ 10
    → All IsContinued bs
    → decode_loop i value bs ≡ refused
decode_loop_truncated i value [] e h = unfold decode_loop in refl
decode_loop_truncated i value (c ∷ bs) e (h, hs) =
    decode_loop_more i value c bs (omega arith) h
    ∙ decode_loop_truncated (i + 1) _ bs (omega arith) hs

-- A number that is cut off, at most ten bytes with the continuation bit and none without it, is
-- refused, also when there is no byte at all.
decode_size_truncated :
    (bs : Bytes) → length bs ≤ 10 → All IsContinued bs → decode_size bs ≡ Decoded.refused
unfolding decode_size
decode_size_truncated bs e h = decode_loop_truncated 0 0 bs (omega arith) h
