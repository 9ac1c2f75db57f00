-- ===== src/Text/Edit/Utf8.antt =====
-- `is_utf8` of Include/util/string.hpp.
use hzrobot.Prelude.{
  ℕ, ◌<◌, ◌≤◌, Bool, true, false, ◌&&◌, ltb, leb, some, List, [], ◌∷◌, ◌++◌, Bytes, All, length,
  ◌≡◌, ◌⊎◌, refl, ◌∙◌, arith,
}
use hzrobot.Text.Edit.{bytes_after, utf8_loop, is_utf8}

-- A character: an ASCII byte, or a first byte with the bytes that follow it.
pub data Char8 : Type 0 where
  ascii : ℕ → Char8
  several : (first : ℕ) (others : Bytes) → Char8

-- The first byte of a character, and how many bytes follow it, as UTF-8 had it with up to six bytes.
abbrev pub IsLead : ℕ → ℕ → Type 0
IsLead c n =
    ((192 ≤ c) × (c < 224) × (n ≡ 1))
    ⊎ (((224 ≤ c) × (c < 240) × (n ≡ 2))
        ⊎ (((240 ≤ c) × (c < 248) × (n ≡ 3))
            ⊎ (((248 ≤ c) × (c < 252) × (n ≡ 4)) ⊎ ((252 ≤ c) × (c < 254) × (n ≡ 5)))))

abbrev pub IsChar8 : Char8 → Type 0
IsChar8 (ascii c) = c < 128
IsChar8 (several c others) = IsLead c (length others) × All (λ x. (128 ≤ x) × (x < 192)) others

bytes_after-IsLead : (c n : ℕ) → IsLead c n → (128 ≤ c) × (bytes_after c ≡ some n)
unfolding bytes_after
bytes_after-IsLead c n h = (ground arith, ground arith)

abbrev pub char_bytes : Char8 → Bytes
char_bytes (ascii c) = c ∷ []
char_bytes (several c others) = c ∷ others

abbrev pub text_bytes : List Char8 → Bytes
text_bytes [] = []
text_bytes (c ∷ cs) = char_bytes c ++ text_bytes cs

-- There is a character of several bytes.
abbrev pub has_several : List Char8 → Bool
has_several [] = false
has_several (ascii c ∷ cs) = has_several cs
has_several (several c others ∷ cs) = true

utf8_loop-others :
    (others rest : Bytes)
    → All (λ x. (128 ≤ x) × (x < 192)) others
    → utf8_loop false (length others) (others ++ rest) ≡ utf8_loop false 0 rest
unfolding utf8_loop
utf8_loop-others [] rest h = refl
utf8_loop-others (x ∷ xs) rest h =
    let follows : (leb 128 x && ltb x 192) ≡ true = ground arith in
    rw (follows, utf8_loop-others xs rest h.1) refl

utf8_loop-several :
    (flag : Bool) (c : ℕ) (others rest : Bytes)
    → IsChar8 (several c others)
    → utf8_loop flag 0 (c ∷ (others ++ rest)) ≡ utf8_loop false 0 rest
unfolding utf8_loop
utf8_loop-several flag c others rest h =
    let (high, more) = bytes_after-IsLead c (length others) h.0 in
    let first : ltb c 128 ≡ false = ground arith in
    rw (first, more) (utf8_loop-others others rest h.1)

utf8_loop-text_false : (cs : List Char8) → All IsChar8 cs → utf8_loop false 0 (text_bytes cs) ≡ true
unfolding utf8_loop
utf8_loop-text_false [] h = refl
utf8_loop-text_false (ascii c ∷ cs) h =
    let first : ltb c 128 ≡ true = ground arith in rw first (utf8_loop-text_false cs h.1)
utf8_loop-text_false (several c others ∷ cs) h =
    utf8_loop-several false c others (text_bytes cs) h.0 ∙ utf8_loop-text_false cs h.1

-- A text of UTF-8 characters, of up to six bytes each, passes the test exactly if one of them has
-- several bytes.
pub is_utf8-text_bytes :
    (cs : List Char8) → All IsChar8 cs → is_utf8 (text_bytes cs) ≡ has_several cs
unfolding is_utf8 utf8_loop
is_utf8-text_bytes [] h = refl
is_utf8-text_bytes (ascii c ∷ cs) h =
    let first : ltb c 128 ≡ true = ground arith in rw first (is_utf8-text_bytes cs h.1)
is_utf8-text_bytes (several c others ∷ cs) h =
    utf8_loop-several true c others (text_bytes cs) h.0 ∙ utf8_loop-text_false cs h.1
