-- ===== src/Tests/Edit.antt =====
-- The editing functions of Include/util/string.hpp on small texts.
use hzrobot.Prelude.{inl, true, false, some, none, List, [], ◌∷◌, Bytes, codes, ◌≡◌, refl, arith}
use hzrobot.Text.Search.{find_first, starts_with}
use mathlib.Core.Option
use hzrobot.Text.Edit.{
  add_piece, bytes_after, is_utf8, prefix_result, print_hex_loop, print_hex_string, replace_all,
  replace_loop, split, split_loop, to_upper, toupper, trim, utf8_loop,
}
use hzrobot.Text.Edit.Utf8.{Char8, ascii, several, text_bytes, has_several, is_utf8-text_bytes}
use hzrobot.Text.Edit.Laws.{join, ArePieces, split_lem, replace_all-split}

split_lem_example :
    (pieces : List Bytes) × (split (codes "a,b,,c") (codes ",") ≡ some pieces)
    × ArePieces (codes ",") (codes "a,b,,c") pieces
split_lem_example = split_lem (codes "a,b,,c") (codes ",") (omega arith)

replace_all-split_example :
    replace_all (codes "a,b") (codes ",") (codes "--")
    ≡ Option.map (join (codes "--")) (split (codes "a,b") (codes ","))
replace_all-split_example = replace_all-split (codes "a,b") (codes ",") (codes "--")

split_run : split (codes "a,b,,c") (codes ",") ≡ some (codes "a" ∷ codes "b" ∷ [] ∷ codes "c" ∷ [])
unfolding split split_loop find_first starts_with add_piece
split_run = refl

-- An empty separator is found for ever.
split_empty : split (codes "ab") [] ≡ none
unfolding split split_loop find_first starts_with add_piece
split_empty = refl

replace_all_run : replace_all (codes "a,b") (codes ",") (codes "--") ≡ some (codes "a--b")
unfolding replace_all replace_loop find_first starts_with prefix_result
replace_all_run = refl

trim_run : trim (codes " \t a b\n") ≡ codes "a b"
unfolding trim
trim_run = refl

to_upper_run : to_upper (codes "aZ1") ≡ codes "AZ1"
unfolding to_upper toupper
to_upper_run = refl

-- Text in ASCII is refused, a character of two bytes is not.
is_utf8_ascii : is_utf8 (codes "abc") ≡ false
unfolding is_utf8 utf8_loop bytes_after
is_utf8_ascii = refl

is_utf8_two : is_utf8 (195 ∷ 169 ∷ []) ≡ true
unfolding is_utf8 utf8_loop bytes_after
is_utf8_two = refl

print_hex_string_run : print_hex_string (1 ∷ 255 ∷ []) ≡ codes "01 FF "
unfolding print_hex_string print_hex_loop
print_hex_string_run = refl

abbrev cafe : List Char8
cafe = ascii b'e' ∷ several 195 (169 ∷ []) ∷ []

is_utf8-text_bytes_example : is_utf8 (text_bytes cafe) ≡ has_several cafe
is_utf8-text_bytes_example =
    is_utf8-text_bytes cafe
      (omega arith, ((inl (omega arith, omega arith, refl), ((omega arith, omega arith), tt)), tt))
