-- ===== src/Text/Base64/RoundTrip.antt =====
-- Decoding an encoded text gives the text back.
use hzrobot.Prelude.{
  take, ℕ, ◌+◌, ◌*◌, ◌/◌, ◌%◌, ◌<◌, ◌≡◌, refl, arith, [], ◌∷◌, ◌++◌, Bytes, AreBytes, map, ◌∙◌, ap,
}
use hzrobot.Text.Base64.Bits.{bit_and_sextet, index_of-char_of, sextets_lem, octets_sextets}
use hzrobot.Text.Base64.{
  char_of, sextets, octets, encode_rest, encode_loop, encode_base64, decode_rest, decode_step,
  decode_loop, decode_base64,
}

-- The loop takes a character of the alphabet.
pub decode_loop-char_of :
    (held : Bytes) (i : ℕ) (xs : Bytes)
    → i < 64
    → decode_loop held (char_of i ∷ xs)
      ≡ (decode_step held (char_of i)).0 ++ decode_loop (decode_step held (char_of i)).1 xs
unfolding decode_loop
decode_loop-char_of held i xs h = ground (arith, index_of-char_of i h)

-- The padding character stops the loop.
decode_loop-pad : (held xs : Bytes) → decode_loop held (b'=' ∷ xs) ≡ decode_rest held
unfolding decode_loop
decode_loop-pad held xs = refl

module _ (p q : ℕ) (hp : p < 64) (hq : q < 64) where
  -- Four characters of the alphabet give three bytes.
  decode_loop_four :
      (r s : ℕ) (xs : Bytes)
      → r < 64
      → s < 64
      → decode_loop [] (char_of p ∷ char_of q ∷ char_of r ∷ char_of s ∷ xs)
        ≡ octets p q r s ++ decode_loop [] xs
  unfolding decode_step
  decode_loop_four r s xs hr hs =
      decode_loop-char_of [] p _ hp
      ∙ decode_loop-char_of (char_of p ∷ []) q _ hq
      ∙ decode_loop-char_of (char_of p ∷ char_of q ∷ []) r _ hr
      ∙ decode_loop-char_of (char_of p ∷ char_of q ∷ char_of r ∷ []) s xs hs
      ∙ rw (
        (index_of-char_of p hp).0,
        (index_of-char_of q hq).0,
        (index_of-char_of r hr).0,
        (index_of-char_of s hs).0,
      )

  -- Three characters and padding give two bytes.
  decode_loop_three :
      (r : ℕ)
      → r < 64
      → decode_loop [] (char_of p ∷ char_of q ∷ char_of r ∷ b'=' ∷ []) ≡ take 2 (octets p q r 255)
  unfolding decode_step decode_rest octets
  decode_loop_three r hr =
      decode_loop-char_of [] p _ hp
      ∙ decode_loop-char_of (char_of p ∷ []) q _ hq
      ∙ decode_loop-char_of (char_of p ∷ char_of q ∷ []) r _ hr
      ∙ decode_loop-pad _ []
      ∙ rw ((index_of-char_of p hp).0, (index_of-char_of q hq).0, (index_of-char_of r hr).0)

  -- Two characters and padding give one byte.
  decode_loop_two :
      decode_loop [] (char_of p ∷ char_of q ∷ b'=' ∷ b'=' ∷ []) ≡ take 1 (octets p q 255 255)
  unfolding decode_step decode_rest octets
  decode_loop_two =
      decode_loop-char_of [] p _ hp
      ∙ decode_loop-char_of (char_of p ∷ []) q _ hq
      ∙ decode_loop-pad _ (b'=' ∷ [])
      ∙ rw ((index_of-char_of p hp).0, (index_of-char_of q hq).0)

-- The bytes that come back from a group, whatever stands in the unused characters.
take_one : (a : ℕ) → a < 256 → take 1 (octets (a / 4) (a % 4 * 16 + 0) 255 255) ≡ a ∷ []
unfolding octets
take_one a h = ground (arith, bit_and_sextet (a % 4 * 16 + 0) (omega arith))

take_two :
    (a b : ℕ)
    → a < 256
    → b < 256
    → take 2 (octets (a / 4) (a % 4 * 16 + b / 16) (b % 16 * 4 + 0) 255) ≡ a ∷ b ∷ []
unfolding octets
take_two a b ha hb = ground (
  arith,
  bit_and_sextet (a % 4 * 16 + b / 16) (omega arith),
  bit_and_sextet (b % 16 * 4 + 0) (omega arith),
)

decode_group :
    (a b c : ℕ) (xs : Bytes)
    → a < 256
    → b < 256
    → c < 256
    → decode_loop [] (map char_of (sextets a b c) ++ xs) ≡ a ∷ b ∷ c ∷ decode_loop [] xs
decode_group a b c xs ha hb hc = rw (sextets_lem a b c ha hb hc) (
    decode_loop_four _ _ (omega arith) (omega arith) _ _ xs (omega arith) (omega arith)
    ∙ rw (octets_sextets a b c ha hb hc))

decode_encode : (xs : Bytes) → AreBytes xs → decode_loop [] (encode_loop [] xs) ≡ xs
unfolding encode_loop encode_rest
decode_encode [] h = unfold decode_loop decode_rest in refl
decode_encode (a ∷ []) (ha, _) =
    rw (sextets_lem a 0 0 ha (omega arith) (omega arith))
      (decode_loop_two _ _ (omega arith) (omega arith) ∙ take_one a ha)
decode_encode (a ∷ b ∷ []) (ha, (hb, _)) =
    rw (sextets_lem a b 0 ha hb (omega arith))
      (decode_loop_three _ _ (omega arith) (omega arith) _ (omega arith) ∙ take_two a b ha hb)
decode_encode (a ∷ b ∷ c ∷ xs) (ha, (hb, (hc, hs))) =
    decode_group a b c _ ha hb hc ∙ ap (λ t. a ∷ b ∷ c ∷ t) (decode_encode xs hs)

-- Decoding gives back every text that was encoded, padding included.
pub decode_base64-encode_base64 :
    (data_ : Bytes) → AreBytes data_ → decode_base64 (encode_base64 data_) ≡ data_
unfolding decode_base64 encode_base64
decode_base64-encode_base64 data_ h = decode_encode data_ h
