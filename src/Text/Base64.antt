-- ===== src/Text/Base64.antt =====
-- `encode_base64` and `decode_base64` of Include/util/string.hpp.
pub mod Bits
pub mod RoundTrip
pub mod Shape
use hzrobot.Prelude.{
  ℕ, ◌+◌, ◌-◌, ◌*◌, ◌/◌, ◌%◌, ◌^◌, bit_and, Bool, not, ◌&&◌, ◌||◌, ◌==◌, if◌then◌else◌, List, [],
  ◌∷◌, ◌++◌, map, Bytes, codes, isalnum, take, get_or,
}

abbrev pub base64_chars : Bytes
base64_chars = codes "ABCDEFGHIJKLMNOPQRSTUVWXYZabcdefghijklmnopqrstuvwxyz0123456789+/"

-- `base64_chars[i]`
unfoldable pub char_of : ℕ → ℕ
char_of i = get_or base64_chars i 0

-- `char_array_4` from `char_array_3`.
unfoldable pub sextets : ℕ → ℕ → ℕ → List ℕ
sextets a b c =
    (bit_and a 0xfc / 4)
    ∷ (bit_and a 0x03 * 16 + bit_and b 0xf0 / 16)
    ∷ (bit_and b 0x0f * 4 + bit_and c 0xc0 / 64)
    ∷ bit_and c 0x3f
    ∷ []

-- The code behind the loop: `i` bytes are left in `char_array_3`, the rest of it is zeroed.
unfoldable pub encode_rest : Bytes → Bytes
encode_rest [] = []
encode_rest (a ∷ []) = map char_of (take 2 (sextets a 0 0)) ++ b'=' ∷ b'=' ∷ []
encode_rest (a ∷ b ∷ []) = map char_of (take 3 (sextets a b 0)) ++ b'=' ∷ []
encode_rest (a ∷ b ∷ c ∷ _) = map char_of (sextets a b c)

-- What the loop and the code behind it append to `ret`, with the first `i` bytes of `char_array_3`.
unfoldable pub encode_loop : Bytes → Bytes → Bytes
unfolding encode_rest
encode_loop held [] = encode_rest held
encode_loop [] (x ∷ xs) = encode_loop (x ∷ []) xs
encode_loop (a ∷ []) (x ∷ xs) = encode_loop (a ∷ x ∷ []) xs
encode_loop (a ∷ b ∷ _) (x ∷ xs) = map char_of (sextets a b x) ++ encode_loop [] xs

unfoldable pub encode_base64 : Bytes → Bytes
unfolding encode_loop sextets char_of
encode_base64 data_ = encode_loop [] data_

unfoldable pub is_base64 : ℕ → Bool
is_base64 c = isalnum c || c == b'+' || c == b'/'

find_from : ℕ → ℕ → Bytes → ℕ
find_from i c [] = 2 ^ 64 - 1
find_from i c (x ∷ xs) = let rest = find_from (i + 1) c xs in if c == x then i else rest

-- `static_cast<uint8>(base64_chars.find(c))`; `npos` is the largest 64-bit number.
unfoldable pub index_of : ℕ → ℕ
unfolding find_from
index_of c = find_from 0 c base64_chars % 256

-- `char_array_3` from `char_array_4`; each is stored into a `uint8`.
unfoldable pub octets : ℕ → ℕ → ℕ → ℕ → Bytes
octets p q r s =
    ((p * 4 + bit_and q 0x30 / 16) % 256)
    ∷ ((bit_and q 0x0f * 16 + bit_and r 0x3c / 4) % 256)
    ∷ ((bit_and r 0x03 * 64 + s) % 256)
    ∷ []

-- The code behind the loop, with `i` characters left in `char_array_4`.
unfoldable pub decode_rest : Bytes → Bytes
decode_rest [] = []
decode_rest (p ∷ []) = take 0 (octets (index_of p) (index_of 0) (index_of 0) (index_of 0))
decode_rest (p ∷ q ∷ []) = take 1 (octets (index_of p) (index_of q) (index_of 0) (index_of 0))
decode_rest (p ∷ q ∷ r ∷ _) = take 2 (octets (index_of p) (index_of q) (index_of r) (index_of 0))

-- The body of the loop: what it appends to `ret`, and the characters it leaves in `char_array_4`.
unfoldable pub decode_step : Bytes → ℕ → Bytes × Bytes
decode_step (p ∷ q ∷ r ∷ _) x = (octets (index_of p) (index_of q) (index_of r) (index_of x), [])
decode_step held x = ([], held ++ x ∷ [])

-- What the loop and the code behind it append to `ret`.
unfoldable pub decode_loop : Bytes → Bytes → Bytes
unfolding decode_rest decode_step is_base64
decode_loop held [] = decode_rest held
decode_loop held (x ∷ xs) =
    let (out, held') = decode_step held x in
    let rest = out ++ decode_loop held' xs in
    if not (x == b'=') && is_base64 x then rest else decode_rest held

unfoldable pub decode_base64 : Bytes → Bytes
unfolding decode_loop octets index_of
decode_base64 data_ = decode_loop [] data_
