-- ===== src/Text/Base64/Shape.antt =====
-- The length and the characters of an encoded text, and where decoding stops.
use hzrobot.Prelude.{
  ℕ, isalnum, ◌+◌, ◌*◌, ◌/◌, ◌%◌, ◌<◌, ◌≡◌, refl, not, true, false, ◌&&◌, ◌||◌, ◌==◌, arith, [],
  ◌∷◌, ◌++◌, Bytes, AreBytes, All, map, length, ◌⊎◌, inl, inr, Bool-cases,
}
use hzrobot.Text.Base64.Bits.{index_of-char_of, sextets_lem}
use hzrobot.Text.Base64.{
  char_of, is_base64, sextets, encode_rest, encode_loop, encode_base64, decode_step, decode_loop,
  decode_base64,
}

encode_loop_length : (xs : Bytes) → length (encode_loop [] xs) ≡ (length xs + 2) / 3 * 4
unfolding encode_loop encode_rest sextets
encode_loop_length [] = refl
encode_loop_length (a ∷ []) = refl
encode_loop_length (a ∷ b ∷ []) = refl
encode_loop_length (a ∷ b ∷ c ∷ xs) = omega (arith, encode_loop_length xs)

-- Each three bytes begun take four characters.
length-encode_base64 : (data_ : Bytes) → length (encode_base64 data_) ≡ (length data_ + 2) / 3 * 4
unfolding encode_base64
length-encode_base64 data_ = encode_loop_length data_

-- A character that the decoder takes, or the padding.
abbrev IsText : ℕ → Type 0
IsText c = (is_base64 c || c == b'=') ≡ true

char_of-IsText : (i : ℕ) → i < 64 → IsText (char_of i)
char_of-IsText i h = ground (arith, index_of-char_of i h)

pad-IsText : IsText b'='
unfolding is_base64 isalnum
pad-IsText = refl

sextets-IsText :
    (a b c : ℕ) (rest : Bytes)
    → a < 256
    → b < 256
    → c < 256
    → All IsText rest
    → All IsText (map char_of (sextets a b c) ++ rest)
sextets-IsText a b c rest ha hb hc h = rw (sextets_lem a b c ha hb hc) (
  char_of-IsText _ (omega arith),
  (
    char_of-IsText _ (omega arith),
    (char_of-IsText _ (omega arith), (char_of-IsText _ (omega arith), h)),
  ),
)

encode_loop-IsText : (xs : Bytes) → AreBytes xs → All IsText (encode_loop [] xs)
unfolding encode_loop encode_rest
encode_loop-IsText [] h = tt
encode_loop-IsText (a ∷ []) (ha, _) = rw (sextets_lem a 0 0 ha (omega arith) (omega arith)) (
  char_of-IsText _ (omega arith),
  (char_of-IsText _ (omega arith), (pad-IsText, (pad-IsText, tt))),
)
encode_loop-IsText (a ∷ b ∷ []) (ha, (hb, _)) = rw (sextets_lem a b 0 ha hb (omega arith)) (
  char_of-IsText _ (omega arith),
  (char_of-IsText _ (omega arith), (char_of-IsText _ (omega arith), (pad-IsText, tt))),
)
encode_loop-IsText (a ∷ b ∷ c ∷ xs) (ha, (hb, (hc, h))) =
    sextets-IsText a b c (encode_loop [] xs) ha hb hc (encode_loop-IsText xs h)

-- Encoded bytes consist of the alphabet and the padding, and their number is a multiple of four.
encode_base64-IsText :
    (data_ : Bytes)
    → AreBytes data_
    → All IsText (encode_base64 data_) × (length (encode_base64 data_) % 4 ≡ 0)
unfolding encode_base64
encode_base64-IsText data_ h = (encode_loop-IsText data_ h, omega (arith, encode_loop_length data_))

decode_loop_stop :
    (held xs : Bytes) (c : ℕ) (ys : Bytes)
    → (not (c == b'=') && is_base64 c) ≡ false
    → decode_loop held (xs ++ c ∷ ys) ≡ decode_loop held xs
unfolding decode_loop
decode_loop_stop held [] c ys h = rw h
decode_loop_stop held (x ∷ xs) c ys h = elim (Bool-cases (not (x == b'=') && is_base64 x)) [
  | inl more ↦ rw (more, decode_loop_stop (decode_step held x).1 xs c ys h)
  | inr stop ↦ rw stop
]

-- Decoding stops for good at the first character outside the alphabet: neither it nor what stands behind it changes the result.
decode_base64_stop :
    (text : Bytes) (c : ℕ) (behind : Bytes)
    → (is_base64 c ≡ false) ⊎ (c ≡ b'=')
    → decode_base64 (text ++ c ∷ behind) ≡ decode_base64 text
unfolding decode_base64
decode_base64_stop text c behind h = decode_loop_stop [] text c behind (ground arith)
