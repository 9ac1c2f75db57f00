-- ===== src/Json/Strings.antt =====
-- Strings in the texts of Include/util/json.hpp: written by the encoder, read by the decoder.
use hzrobot.Prelude.{ℕ, false, ◌==◌, some, [], ◌∷◌, ◌++◌, Bytes, All, ◌≡◌, ◌≢◌, refl, ap, arith}
use hzrobot.Json.{Node}
use hzrobot.Json.Decode.{scan_string, string_at, parse_string}
use hzrobot.Json.Encode.{encode_char, encode_string}

-- The encoder writes the character as it is.
abbrev pub IsPlain : ℕ → Type 0
IsPlain c = (c ≢ b'\\') × (c ≢ b'"') × (c ≢ 8) × (c ≢ 12) × (c ≢ b'\t') × (c ≢ b'\n') × (c ≢ b'\r')

encode_char-IsPlain : (c : ℕ) → IsPlain c → encode_char c ≡ c ∷ []
unfolding encode_char
encode_char-IsPlain c h = ground arith

encode_string-IsPlain : (v : Bytes) → All IsPlain v → encode_string v ≡ v
unfolding encode_string
encode_string-IsPlain [] h = refl
encode_string-IsPlain (c ∷ cs) h = rw (encode_char-IsPlain c h.0, encode_string-IsPlain cs h.1)

scan_string-IsPlain :
    (before : ℕ) (v rest : Bytes)
    → before ≢ b'\\'
    → All IsPlain v
    → scan_string b'"' before (v ++ b'"' ∷ rest) ≡ some (v, rest)
unfolding scan_string
scan_string-IsPlain before [] rest b h = ground arith
scan_string-IsPlain before (c ∷ cs) rest b h =
    let other : (c == b'"') ≡ false = ground arith in
    rw (other, scan_string-IsPlain c cs rest h.0.0 h.1)

-- A string of characters that the encoder writes as they are is read back from what the encoder
-- writes between the quotes.
parse_string-encode_string :
    (n : Node) (v rest : Bytes)
    → All IsPlain v
    → parse_string n b'"' (encode_string v ++ b'"' ∷ rest) ≡ string_at n (some (v, rest))
unfolding parse_string
parse_string-encode_string n v rest h =
    ap (string_at n)
      (rw (encode_string-IsPlain v h) (scan_string-IsPlain b'"' v rest (omega arith) h))
