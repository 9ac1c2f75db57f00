-- ===== src/Json/Models/Reading/Strings.antt =====
-- Strings that the encoder leaves as they are.
use hzrobot.Prelude.{
  ℕ, Bool, true, false, ap₂, [], ◌∷◌, ◌++◌, Bytes, All, ◌==◌, if◌then◌else◌, ◌≡◌, refl,
}
use hzrobot.Json.Encode.{encode_char, encode_string}
use hzrobot.Json.Documents.{IsPrinted}

-- A branch that writes a backslash is not taken.
escape :
    (taken : Bool) (letter : ℕ) (other goal rest : Bytes)
    → (All IsPrinted (other ++ rest) → other ≡ goal)
    → All IsPrinted ((if taken then b'\\' ∷ letter ∷ [] else other) ++ rest)
    → (if taken then b'\\' ∷ letter ∷ [] else other) ≡ goal
escape true letter other goal rest later h = absurd (h.0.0 refl)
escape false letter other goal rest later h = later h

encode_char-left :
    (c : ℕ) (rest : Bytes) → All IsPrinted (encode_char c ++ rest) → encode_char c ≡ c ∷ []
unfolding encode_char
encode_char-left c rest = escape (c == b'\\') b'\\' _ (c ∷ []) rest (
    escape (c == b'"') b'"' _ (c ∷ []) rest (
      escape (c == 8) b'b' _ (c ∷ []) rest (
        escape (c == 12) b'f' _ (c ∷ []) rest (
          escape (c == b'\t') b't' _ (c ∷ []) rest (
            escape (c == b'\n') b'n' _ (c ∷ []) rest
              (escape (c == b'\r') b'r' (c ∷ []) (c ∷ []) rest (λ h. refl)))))))

All-behind : (xs ys : Bytes) → All IsPrinted (xs ++ ys) → All IsPrinted ys
All-behind [] ys h = h
All-behind (x ∷ xs) ys h = All-behind xs ys h.1

pub encode_string-left : (v : Bytes) → All IsPrinted (encode_string v) → encode_string v ≡ v
unfolding encode_string
encode_string-left [] h = refl
encode_string-left (c ∷ cs) h =
    ap₂ (λ (a b : Bytes). a ++ b) (encode_char-left c (encode_string cs) h)
      (encode_string-left cs (All-behind (encode_char c) (encode_string cs) h))
