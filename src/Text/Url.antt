-- ===== src/Text/Url.antt =====
-- `encode_url` and `decode_url` of Include/util/string.hpp.
pub mod Tables
pub mod RoundTrip
use hzrobot.Prelude.{
  c_str, ℕ, ◌+◌, ◌*◌, ◌%◌, Bool, true, false, ◌&&◌, ◌==◌, if◌then◌else◌, [], ◌∷◌, ◌++◌, Bytes,
  isalnum, get_or,
}
use Tables.{url_encode_table, url_decode_table}

unfoldable pub encode_byte : ℕ → Bytes
encode_byte x = get_or url_encode_table x []

-- The loop of `encode_url`, up to the terminator.
unfoldable pub encode_bytes : Bytes → Bytes
encode_bytes [] = []
encode_bytes (x ∷ xs) = encode_byte x ++ encode_bytes xs

unfoldable pub encode_url : Bytes → Bytes
unfolding encode_bytes encode_byte
encode_url url = encode_bytes (c_str url)

unfoldable pub hex_value : ℕ → ℕ
hex_value c = get_or url_decode_table c 0

-- `(unsigned char)((table[a] << 4) + table[b])`
unfoldable pub unescape : ℕ → ℕ → ℕ
unescape a b = (hex_value a * 16 + hex_value b) % 256

-- `ret += x` before what the rest of the loop does.
abbrev put : ℕ → Bool × Bytes → Bool × Bytes
put x r = (r.0, x ∷ r.1)

-- The loop of `decode_url`: the return value, and what was appended to `ret` by then. The test
-- `len >= pos + 2` fails at a `%` that ends the text; at one with a single byte behind it
-- `data[pos + 2]` is the terminator, which is no letter or digit.
unfoldable pub decode_bytes : Bytes → Bool × Bytes
decode_bytes [] = (true, [])
decode_bytes (c ∷ []) = if c == b'%' then (false, []) else (true, c ∷ [])
decode_bytes (c ∷ a ∷ []) =
    let plain = put c (decode_bytes (a ∷ [])) in if c == b'%' then (false, []) else plain
decode_bytes (c ∷ a ∷ b ∷ xs) =
    let escaped = put (unescape a b) (decode_bytes xs) in
    let plain = put c (decode_bytes (a ∷ b ∷ xs)) in
    let taken : Bool × Bytes = if isalnum a && isalnum b then escaped else (false, []) in
    if c == b'%' then taken else plain

unfoldable pub decode_url : Bytes → Bool × Bytes
unfolding decode_bytes unescape hex_value
decode_url url = decode_bytes (c_str url)
