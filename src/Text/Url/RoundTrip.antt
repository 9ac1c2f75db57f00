-- ===== src/Text/Url/RoundTrip.antt =====
-- Decoding an encoded URL gives the URL back.
use hzrobot.Prelude.{
  c_str, ℕ, ◌<◌, Bool, true, false, not, ◌&&◌, ◌||◌, ◌==◌, [], ◌∷◌, ◌++◌, Bytes, isalnum, ◌≡◌, refl,
  ◌∙◌, arith, passes_below, passes_below-apply, inl, inr, leb, AreBytes, All, Bool-cases, and_left,
  and_right,
}
use hzrobot.Text.Url.Tables.{url_encode_table, url_decode_table}
use hzrobot.Text.Url.{
  encode_byte, encode_bytes, encode_url, hex_value, unescape, decode_bytes, decode_url,
}

-- A byte other than NUL is written as itself, or as `%` and two hexadecimal digits of its value.
abbrev is_written : ℕ → Bytes → Bool
is_written x (c ∷ []) = c == x && not (c == b'%')
is_written x (c ∷ a ∷ b ∷ []) = c == b'%' && isalnum a && isalnum b && unescape a b == x
is_written x _ = false

encode_byte_table : passes_below (λ x. is_written x (encode_byte x)) 256 ≡ true
unfolding passes_below encode_byte unescape hex_value isalnum url_encode_table url_decode_table
encode_byte_table = refl

decode-is_written :
    (x : ℕ) (w rest : Bytes)
    → is_written x w ≡ true
    → decode_bytes (w ++ rest) ≡ ((decode_bytes rest).0, x ∷ (decode_bytes rest).1)
unfolding decode_bytes
decode-is_written x [] rest h = cc
decode-is_written x (c ∷ []) [] h = ground arith
decode-is_written x (c ∷ []) (a ∷ []) h = ground arith
decode-is_written x (c ∷ []) (a ∷ b ∷ rest) h = ground arith
decode-is_written x (c ∷ a ∷ []) rest h = cc
decode-is_written x (c ∷ a ∷ b ∷ []) rest h = ground arith
decode-is_written x (c ∷ a ∷ b ∷ d ∷ w) rest h = cc

decode-encode_byte :
    (x : ℕ) (rest : Bytes)
    → x < 256
    → decode_bytes (encode_byte x ++ rest) ≡ ((decode_bytes rest).0, x ∷ (decode_bytes rest).1)
decode-encode_byte x rest h =
    decode-is_written x (encode_byte x) rest
      (passes_below-apply (λ x. is_written x (encode_byte x)) encode_byte_table x h)

decode-encode_bytes : (xs : Bytes) → AreBytes xs → decode_bytes (encode_bytes xs) ≡ (true, xs)
unfolding encode_bytes
decode-encode_bytes [] h = unfold decode_bytes in refl
decode-encode_bytes (x ∷ xs) (hx, hs) =
    decode-encode_byte x (encode_bytes xs) hx ∙ rw (decode-encode_bytes xs hs)

-- No NUL byte.
abbrev NoNul : Bytes → Type 0
NoNul = All (λ x. 0 < x)

c_str-NoNul : (xs : Bytes) → NoNul (c_str xs)
unfolding c_str
c_str-NoNul [] = tt
c_str-NoNul (x ∷ xs) = elim (Bool-cases (x == 0)) [
  | inl e ↦ rw e tt
  | inr e ↦ rw e (ground arith, c_str-NoNul xs)
]

c_str-eq_of_NoNul : (xs : Bytes) → NoNul xs → c_str xs ≡ xs
unfolding c_str
c_str-eq_of_NoNul [] h = refl
c_str-eq_of_NoNul (x ∷ xs) (h, hs) = ground (arith, c_str-eq_of_NoNul xs hs)

c_str-AreBytes : (xs : Bytes) → AreBytes xs → AreBytes (c_str xs)
unfolding c_str
c_str-AreBytes [] h = tt
c_str-AreBytes (x ∷ xs) (h, hs) = elim (Bool-cases (x == 0)) [
  | inl e ↦ rw e tt
  | inr e ↦ rw e (h, c_str-AreBytes xs hs)
]

-- Visible ASCII, and none of the characters that RFC 3986 keeps out of a URL or uses as a
-- delimiter of a fragment or an IP literal.
abbrev pub is_url_safe : ℕ → Bool
is_url_safe c =
    leb 0x21 c
    && leb c 0x7e
    && not (
        c == b'"'
        || c == b'#'
        || c == b'<'
        || c == b'>'
        || c == b'['
        || c == b'\\'
        || c == b']'
        || c == b'^'
        || c == b'`'
        || c == b'{'
        || c == b'|'
        || c == b'}')

abbrev IsUrlSafe : ℕ → Type 0
IsUrlSafe c = is_url_safe c ≡ true

abbrev all_safe : Bytes → Bool
all_safe [] = true
all_safe (c ∷ cs) = is_url_safe c && all_safe cs

encode_byte_safe_table : passes_below (λ x. all_safe (encode_byte x)) 256 ≡ true
unfolding passes_below encode_byte url_encode_table
encode_byte_safe_table = refl

all_safe-append :
    (w rest : Bytes) → all_safe w ≡ true → All IsUrlSafe rest → All IsUrlSafe (w ++ rest)
all_safe-append [] rest h r = r
all_safe-append (c ∷ cs) rest h r =
    (and_left _ _ h, all_safe-append cs rest (and_right (is_url_safe c) _ h) r)

encode_bytes-IsUrlSafe : (xs : Bytes) → AreBytes xs → All IsUrlSafe (encode_bytes xs)
unfolding encode_bytes
encode_bytes-IsUrlSafe [] h = tt
encode_bytes-IsUrlSafe (x ∷ xs) (hx, hs) =
    all_safe-append (encode_byte x) (encode_bytes xs)
      (passes_below-apply (λ y. all_safe (encode_byte y)) encode_byte_safe_table x hx)
      (encode_bytes-IsUrlSafe xs hs)

-- An encoded URL holds visible ASCII characters only, and none that is unsafe in a URL.
encode_url-IsUrlSafe : (url : Bytes) → AreBytes url → All IsUrlSafe (encode_url url)
unfolding encode_url
encode_url-IsUrlSafe url h = encode_bytes-IsUrlSafe (c_str url) (c_str-AreBytes url h)

NoNul-of_safe : (xs : Bytes) → All IsUrlSafe xs → NoNul xs
NoNul-of_safe [] h = tt
NoNul-of_safe (x ∷ xs) (h, hs) = (ground arith, NoNul-of_safe xs hs)

-- Decoding succeeds on every encoded URL and gives back its bytes up to the terminator.
pub decode_url-encode_url :
    (url : Bytes) → AreBytes url → decode_url (encode_url url) ≡ (true, c_str url)
decode_url-encode_url url h =
    unfold decode_url in
    rw (c_str-eq_of_NoNul (encode_url url) (NoNul-of_safe _ (encode_url-IsUrlSafe url h)))
      (unfold encode_url in decode-encode_bytes (c_str url) (c_str-AreBytes url h))

abbrev pub is_hex_digit : ℕ → Bool
is_hex_digit c = leb b'0' c && leb c b'9' || leb b'A' c && leb c b'F' || leb b'a' c && leb c b'f'

hex_value_other_table : passes_below (λ c. is_hex_digit c || hex_value c == 0) 256 ≡ true
unfolding passes_below hex_value url_decode_table
hex_value_other_table = refl

-- `decode_url` takes an escape of two letters that are no hexadecimal digits, and decodes it to a NUL byte instead of refusing it.
decode_url_bad_escape :
    (a b : ℕ) (rest : Bytes)
    → isalnum a ≡ true
    → isalnum b ≡ true
    → is_hex_digit a ≡ false
    → is_hex_digit b ≡ false
    → decode_url (b'%' ∷ a ∷ b ∷ rest) ≡ ((decode_url rest).0, 0 ∷ (decode_url rest).1)
unfolding decode_url c_str unescape isalnum
decode_url_bad_escape a b rest ha hb na nb = ground (
  arith,
  passes_below-apply (λ c. is_hex_digit c || hex_value c == 0) hex_value_other_table a
      (ground arith),
  passes_below-apply (λ c. is_hex_digit c || hex_value c == 0) hex_value_other_table b
      (ground arith),
)
