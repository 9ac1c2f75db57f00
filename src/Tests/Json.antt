-- ===== src/Tests/Json.antt =====
-- Include/util/json.hpp on small texts.
use hzrobot.Prelude.{true, [], ◌++◌, codes, equal, ◌≡◌, ◌≢◌, refl, arith}
use hzrobot.Text.Search.{starts_with, find_first, find_last}
use hzrobot.Json.{
  Node, e_array, e_integer, e_object, e_string, emplace, get_key, less, member, new_node, no_items,
  no_members, node,
}
use hzrobot.Json.Decode.{
  after_child, as_kind, attach, child_at, decode, decode_root, decode_type, decode_value, find_char,
  is_good_number, keyed_at, number_kind, parse_number, parse_object, parse_string, parse_symbol,
  parsed, rejected, scan_string, signed, skip_number, skip_space, string_at, stuck, thrown,
}
use hzrobot.Json.Encode.{encode_char, encode_key, encode_root, encode_string, format}
use hzrobot.Json.Childs.{HasOrder}
use hzrobot.Json.Documents.{
  Doc, text, numeral, object, array, field, no_fields, doc, no_docs, IsDoc, print, to_node,
}
use hzrobot.Json.Documents.Decoding.{decode_root-print}
use hzrobot.Json.Terminates.{decode_root-ends}

abbrev one : Node
one = node e_integer (codes "b") (codes "1") no_members no_items

abbrev two : Node
two = node e_string (codes "a") (codes "x") no_members no_items

abbrev both : Node
both = node e_object [] [] (member (codes "a") two (member (codes "b") one no_members)) no_items

decode_both : decode_root (codes "{\"b\": 1, 'a':\"x\"} ") ≡ parsed both (codes " ")
unfolding decode_root decode decode_type decode_value skip_space starts_with parse_object
    after_child as_kind keyed_at find_char parse_number skip_number is_good_number find_first
    find_last child_at parse_string string_at attach scan_string number_kind emplace less equal
decode_both = refl

encode_both : encode_root both ≡ codes "{\"a\":\"x\",\"b\":1}"
unfolding encode_root encode_key encode_string encode_char
encode_both = refl

format-both : format true 0 both ≡ codes "{\n    \"a\": \"x\",\n    \"b\": 1\n}"
unfolding format
format-both = refl

-- A list that ends in a symbol is refused, a text that begins no value is an empty object, and a
-- minus sign at the end is out of range.
decode_symbols : decode_root (codes "[true]") ≡ rejected (node e_array [] [] no_members no_items)
unfolding decode_root decode decode_type decode_value skip_space starts_with parse_object
    after_child as_kind parse_symbol
decode_symbols = refl

decode_garbage : decode_root (codes "garbage") ≡ parsed new_node (codes "garbage")
unfolding decode_root decode decode_type decode_value skip_space starts_with
decode_garbage = refl

decode_minus : decode_root (codes "-") ≡ thrown
unfolding decode_root decode decode_type decode_value skip_space starts_with signed
decode_minus = refl

-- The escapes of a string are kept, so they are escaped again.
decode_escapes :
    decode_root (codes "\"a\\\"b\"")
    ≡ parsed (node e_string [] (codes "a\\\"b") no_members no_items) []
unfolding decode_root decode decode_type decode_value skip_space starts_with parse_string string_at
    scan_string
decode_escapes = refl

encode_escapes :
    encode_root (node e_string [] (codes "a\\\"b") no_members no_items) ≡ codes "\"a\\\\\\\"b\""
unfolding encode_root encode_key encode_string encode_char
encode_escapes = refl

decode_root-ends_example : decode_root (codes "[[1,2],{}]") ≢ stuck
decode_root-ends_example = decode_root-ends (codes "[[1,2],{}]")

keyed_one : get_key one ≢ []
unfolding get_key
keyed_one e = absurd cc

both-HasOrder : HasOrder both
unfolding less
both-HasOrder = ((refl, tt), (tt, tt))

abbrev sample : Doc
sample = object (
    field (codes "a") (numeral (codes "1"))
      (field (codes "b") (array (doc (text (codes "x")) no_docs)) no_fields))

sample-IsDoc : IsDoc sample
unfolding IsDoc
sample-IsDoc = (
  (λ e. absurd cc),
  ((ground arith, ground arith), tt),
  ((λ e. absurd cc), ((ground arith, ground arith), tt)),
  (
    (λ e. absurd cc),
    ((ground arith, ground arith), tt),
    ((((ground arith, ground arith), tt), tt, tt)),
    tt,
  ),
)

decode_root-print_example :
    decode_root (print sample ++ codes "\n") ≡ parsed (to_node [] sample) (codes "\n")
decode_root-print_example = decode_root-print sample (codes "\n") sample-IsDoc tt

print-sample : print sample ≡ codes "{\"a\":1,\"b\":[\"x\"]}"
unfolding print
print-sample = refl
