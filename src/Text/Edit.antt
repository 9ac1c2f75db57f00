-- ===== src/Text/Edit.antt =====
-- The editing functions of Include/util/string.hpp: splitting, replacing, trimming, the test for
-- UTF-8 and the print of bytes.
pub mod Laws
pub mod Utf8
use hzrobot.Prelude.{
  ℕ, zero, suc, ◌+◌, ◌-◌, ◌/◌, ◌%◌, Bool, true, false, not, ◌&&◌, ◌||◌, ◌==◌, ltb, leb,
  if◌then◌else◌, Option, some, none, List, [], ◌∷◌, ◌++◌, Bytes, codes, length, take, drop, map,
  get_or,
}
use hzrobot.Text.Search.{find_first}

-- A piece before the rest of the pieces.
unfoldable pub add_piece : Bytes → Option (List Bytes) → Option (List Bytes)
add_piece piece none = none
add_piece piece (some pieces) = some (piece ∷ pieces)

-- The loop of `split` on the text from `begin` on. The length of the text is enough fuel where
-- the separator is not empty; for an empty one the loop of the source does not end.
unfoldable pub split_loop : ℕ → Bytes → Bytes → Option (List Bytes)
split_loop zero des str = none
split_loop (suc fuel) des str = elim (find_first des str) [
  | none ↦ some (str ∷ [])
  | some end ↦ add_piece (take end str) (split_loop fuel des (drop (end + length des) str))
]

-- `none` where the loop does not end.
unfoldable pub split : Bytes → Bytes → Option (List Bytes)
split str des = split_loop (suc (length str)) des str

unfoldable pub prefix_result : Bytes → Option Bytes → Option Bytes
prefix_result before none = none
prefix_result before (some after) = some (before ++ after)

-- The loop of `replace_all` on the text from `pos` on.
unfoldable pub replace_loop : ℕ → Bytes → Bytes → Bytes → Option Bytes
replace_loop zero src des str = none
replace_loop (suc fuel) src des str = elim (find_first src str) [
  | none ↦ some str
  | some pos ↦
      prefix_result (take pos str ++ des) (replace_loop fuel src des (drop (pos + length src) str))
]

unfoldable pub replace_all : Bytes → Bytes → Bytes → Option Bytes
replace_all str src des = replace_loop (suc (length str)) src des str

-- `toupper` and `tolower` in the C locale.
unfoldable pub toupper : ℕ → ℕ
toupper c = if leb b'a' c && leb c b'z' then c - 32 else c

unfoldable pub tolower : ℕ → ℕ
tolower c = if leb b'A' c && leb c b'Z' then c + 32 else c

unfoldable pub to_upper : Bytes → Bytes
to_upper s = map toupper s

unfoldable pub to_lower : Bytes → Bytes
to_lower s = map tolower s

abbrev pub is_trimmed : ℕ → Bool
is_trimmed c = c == b' ' || c == b'\n' || c == b'\r' || c == b'\t'

-- Without such a character, `erase(0, npos)` takes the whole text.
unfoldable pub trim_left : Bytes → Bytes
trim_left [] = []
trim_left (c ∷ cs) = let rest = trim_left cs in if is_trimmed c then rest else c ∷ cs

unfoldable pub keep_right : ℕ → Bytes → Bytes
keep_right c [] = if is_trimmed c then [] else c ∷ []
keep_right c (d ∷ rest) = c ∷ d ∷ rest

-- `find_last_not_of` plus 1 is 0 without such a character.
unfoldable pub trim_right : Bytes → Bytes
unfolding keep_right
trim_right [] = []
trim_right (c ∷ cs) = keep_right c (trim_right cs)

unfoldable pub trim : Bytes → Bytes
unfolding trim_left trim_right
trim s = trim_right (trim_left s)

-- How many bytes follow the first one of a character; `none` for a byte that begins none.
unfoldable pub bytes_after : ℕ → Option ℕ
bytes_after chr =
    if leb 252 chr && leb chr 253
    then some 5
    else if leb 248 chr
    then some 4
    else if leb 240 chr
    then some 3
    else if leb 224 chr
    then some 2
    else if leb 192 chr
    then some 1
    else none

-- The loop over the bytes; `bytes` are expected yet.
unfoldable pub utf8_loop : Bool → ℕ → Bytes → Bool
utf8_loop all_ascii bytes [] = bytes == 0 && not all_ascii
utf8_loop all_ascii zero (chr ∷ rest) =
    let ascii = utf8_loop all_ascii 0 rest in
    let first : Bool = elim (bytes_after chr) [
      | none ↦ false
      | some more ↦ utf8_loop false more rest
    ] in
    if ltb chr 128 then ascii else first
utf8_loop all_ascii (suc bytes) (chr ∷ rest) =
    let next = utf8_loop false bytes rest in if leb 128 chr && ltb chr 192 then next else false

unfoldable pub is_utf8 : Bytes → Bool
is_utf8 str = utf8_loop true 0 str

abbrev hex_digits : Bytes
hex_digits = codes "0123456789ABCDEF"

unfoldable pub hex_char : ℕ → Bytes
hex_char c = get_or hex_digits (c / 16) 0 ∷ get_or hex_digits (c % 16) 0 ∷ b' ' ∷ []

unfoldable pub print_hex_loop : ℕ → Bytes → Bytes
unfolding hex_char
print_hex_loop i [] = []
print_hex_loop i (c ∷ cs) =
    (if ltb 0 i && i % 8 == 0 then codes " " else [])
    ++ (hex_char c
        ++ ((if ltb 0 i && i % 32 == 0 then codes "\n" else []) ++ print_hex_loop (i + 1) cs))

unfoldable pub print_hex_string : Bytes → Bytes
print_hex_string str = print_hex_loop 0 str
