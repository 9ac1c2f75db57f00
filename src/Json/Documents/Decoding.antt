-- ===== src/Json/Documents/Decoding.antt =====
-- The decoder of Include/util/json.hpp on whole documents.
use hzrobot.Prelude.{
  ℕ, zero, suc, ◌<◌, ◌≤◌, [], ◌∷◌, ◌++◌, Bytes, codes, length, length-append, append_assoc, ◌≡◌,
  refl, ◌∙◌, ap, arith,
}
use hzrobot.Text.Search.{starts_with}
use hzrobot.Json.{
  e_object, e_array, Node, node, new_node, Members, no_members, Items, no_items, emplace, push_back,
}
use hzrobot.Json.Decode.{
  parsed, e_decode_key, e_decode_type, skip_space, string_at, parse_string, attach, as_kind,
  decode_value, decode_type, key_at, decode, child_at, after_child, parse_object, decode_root,
}
use hzrobot.Json.Documents.{
  Doc, text, numeral, object, array, Fields, no_fields, field, Docs, no_docs, doc, IsDoc, AreFields,
  AreDocs, print, print_fields, print_more, print_docs, print_rest, to_node, add_fields, add_docs,
  Follows,
}
use hzrobot.Json.Documents.Scan.{scan_string-IsPrinted, parse_number-digits, skip_space-print}
use hzrobot.Json.Documents.Step.{
  Follows-stop, decode_value-digit, parse_object-field, parse_object-item, field_text,
}

-- Behind a field: the closing brace, or a comma and the other fields.
child_at-fields :
    (fuel : ℕ) (k : Bytes) (n : Node) (kv : Members) (fs : Fields) (rest : Bytes)
    → parse_object fuel
        (node e_object k [] kv no_items)
        e_decode_key
        b'}'
        (print_fields fs ++ b'}' ∷ rest)
      ≡ parsed (node e_object k [] (add_fields kv fs) no_items) rest
    → child_at
        (λ m cs. parse_object fuel m e_decode_key b'}' cs)
        n
        (node e_object k [] kv no_items)
        b'}'
        (skip_space (print_more fs ++ b'}' ∷ rest))
      ≡ parsed (node e_object k [] (add_fields kv fs) no_items) rest
unfolding child_at skip_space print_more add_fields
child_at-fields fuel k n kv no_fields rest h = refl
child_at-fields fuel k n kv (field key d fs) rest h = h

child_at-docs :
    (fuel : ℕ) (k : Bytes) (n : Node) (arr : Items) (ds : Docs) (rest : Bytes)
    → parse_object fuel
        (node e_array k [] no_members arr)
        e_decode_type
        b']'
        (print_docs ds ++ b']' ∷ rest)
      ≡ parsed (node e_array k [] no_members (add_docs arr ds)) rest
    → child_at
        (λ m cs. parse_object fuel m e_decode_type b']' cs)
        n
        (node e_array k [] no_members arr)
        b']'
        (skip_space (print_rest ds ++ b']' ∷ rest))
      ≡ parsed (node e_array k [] no_members (add_docs arr ds)) rest
unfolding child_at skip_space print_rest add_docs
child_at-docs fuel k n arr no_docs rest h = refl
child_at-docs fuel k n arr (doc d ds) rest h = h

-- What follows a value among others.
print_more_lem :
    (d : Doc) (fs : Fields) (rest : Bytes)
    → Follows d (print_more fs ++ b'}' ∷ rest)
      × (length (print_fields fs ++ b'}' ∷ rest) ≤ length (print_more fs ++ b'}' ∷ rest))
unfolding print_more
print_more_lem d no_fields rest = (Follows-stop d b'}' rest refl, omega arith)
print_more_lem d (field key e fs) rest =
    (Follows-stop d b',' (print_fields (field key e fs) ++ b'}' ∷ rest) refl, omega arith)

print_rest_lem :
    (d : Doc) (ds : Docs) (rest : Bytes)
    → Follows d (print_rest ds ++ b']' ∷ rest)
      × (length (print_docs ds ++ b']' ∷ rest) ≤ length (print_rest ds ++ b']' ∷ rest))
unfolding print_rest
print_rest_lem d no_docs rest = (Follows-stop d b']' rest refl, omega arith)
print_rest_lem d (doc e ds) rest =
    (Follows-stop d b',' (print_docs (doc e ds) ++ b']' ∷ rest) refl, omega arith)

doc_text :
    (d : Doc) (ds : Docs) (rest : Bytes)
    → print_docs (doc d ds) ++ rest ≡ print d ++ (print_rest ds ++ rest)
unfolding print_docs
doc_text d ds rest = append_assoc (print d) (print_rest ds) rest

print-filled : (d : Doc) → IsDoc d → 0 < length (print d)
unfolding print IsDoc
print-filled (text v) is = omega arith
print-filled (numeral []) is = absurd (is.0 refl)
print-filled (numeral (c ∷ cs)) is = omega arith
print-filled (object fs) is = omega arith
print-filled (array ds) is = omega arith

mutual
  unfolding decode_value IsDoc print to_node starts_with as_kind parse_string string_at child_at
      skip_space parse_object after_child decode key_at decode_type attach

  decode_doc :
      (fuel : ℕ) (k : Bytes) (d : Doc) (rest : Bytes)
      → IsDoc d
      → Follows d rest
      → length (print d ++ rest) ≤ fuel
      → decode_value (parse_object fuel) (node e_object k [] no_members no_items) (print d ++ rest)
        ≡ parsed (to_node k d) rest
  decode_doc fuel k (text v) rest is follows bound =
      let cut : (v ++ codes "\"") ++ rest ≡ v ++ b'"' ∷ rest = simp append_assoc in
      let n = node e_object k [] no_members no_items in
      ap (parse_string n b'"') cut
      ∙ ap (string_at n) (scan_string-IsPrinted b'"' v rest (omega arith) is)
  decode_doc fuel k (numeral []) rest is follows bound = absurd (is.0 refl)
  decode_doc fuel k (numeral (c ∷ cs)) [] is follows bound = absurd follows
  decode_doc fuel k (numeral (c ∷ cs)) (stop ∷ rest) is follows bound =
      decode_value-digit fuel (node e_object k [] no_members no_items) c (cs ++ stop ∷ rest) is.1.0
      ∙ parse_number-digits k c cs stop rest is.1 follows
  decode_doc fuel k (object fs) rest is follows bound =
      let cut : (print_fields fs ++ codes "}") ++ rest ≡ print_fields fs ++ b'}' ∷ rest =
        simp append_assoc in
      ap (parse_object fuel (node e_object k [] no_members no_items) e_decode_key b'}') cut
      ∙ parse_fields fuel k no_members fs rest is (omega (arith, bound, ap length cut))
  decode_doc fuel k (array ds) rest is follows bound =
      let cut : (print_docs ds ++ codes "]") ++ rest ≡ print_docs ds ++ b']' ∷ rest =
        simp append_assoc in
      ap (parse_object fuel (node e_array k [] no_members no_items) e_decode_type b']') cut
      ∙ parse_docs fuel k no_items ds rest is (omega (arith, bound, ap length cut))

  parse_fields :
      (fuel : ℕ) (k : Bytes) (kv : Members) (fs : Fields) (rest : Bytes)
      → AreFields fs
      → length (print_fields fs ++ b'}' ∷ rest) < fuel
      → parse_object fuel
          (node e_object k [] kv no_items)
          e_decode_key
          b'}'
          (print_fields fs ++ b'}' ∷ rest)
        ≡ parsed (node e_object k [] (add_fields kv fs) no_items) rest
  parse_fields zero k kv fs rest is bound = absurd (omega arith)
  parse_fields (suc fuel) k kv no_fields rest is bound = refl
  parse_fields (suc fuel) k kv (field key d fs) rest is bound =
      let more = print_more fs ++ b'}' ∷ rest in
      let kv' = emplace key (to_node key d) kv in
      let cut = field_text key d fs (b'}' ∷ rest) in
      let (follows, shorter) = print_more_lem d fs rest in
      let l = length-append key (b'"' ∷ b':' ∷ (print d ++ more)) in
      let l' = length-append (print d) more in
      let total = ap length cut in
      ap (parse_object (suc fuel) (node e_object k [] kv no_items) e_decode_key b'}') cut
      ∙ parse_object-field fuel k key kv d more is.0 is.1 is.2
          (decode_doc fuel key d more is.2 follows (omega (arith, bound, total, l)))
      ∙ child_at-fields fuel k (node e_object k [] kv no_items) kv' fs rest
          (parse_fields fuel k kv' fs rest is.3 (omega (arith, bound, total, l, l', shorter)))

  parse_docs :
      (fuel : ℕ) (k : Bytes) (arr : Items) (ds : Docs) (rest : Bytes)
      → AreDocs ds
      → length (print_docs ds ++ b']' ∷ rest) < fuel
      → parse_object fuel
          (node e_array k [] no_members arr)
          e_decode_type
          b']'
          (print_docs ds ++ b']' ∷ rest)
        ≡ parsed (node e_array k [] no_members (add_docs arr ds)) rest
  parse_docs zero k arr ds rest is bound = absurd (omega arith)
  parse_docs (suc fuel) k arr no_docs rest is bound = refl
  parse_docs (suc fuel) k arr (doc d ds) rest is bound =
      let more = print_rest ds ++ b']' ∷ rest in
      let arr' = push_back (to_node [] d) arr in
      let cut = doc_text d ds (b']' ∷ rest) in
      let (follows, shorter) = print_rest_lem d ds rest in
      let l = length-append (print d) more in
      let filled = print-filled d is.0 in
      let total = ap length cut in
      ap (parse_object (suc fuel) (node e_array k [] no_members arr) e_decode_type b']') cut
      ∙ parse_object-item fuel k arr d more is.0 is.1
          (decode_doc fuel [] d more is.0 follows (omega (arith, bound, total, l)))
      ∙ child_at-docs fuel k (node e_array k [] no_members arr) arr' ds rest
          (parse_docs fuel k arr' ds rest is.2 (omega (arith, bound, total, l, filled, shorter)))

-- The decoder reads the text of a document as the document, and leaves what follows it. The document
-- is made of strings, numerals of digits, objects and lists, without `true`, `false` and `null`; its
-- strings and keys hold no quote and no backslash, no key is empty, no list holds an empty string,
-- object or list, and where the document is a numeral, a character that is none of a number follows.
pub decode_root-print :
    (d : Doc) (rest : Bytes)
    → IsDoc d
    → Follows d rest
    → decode_root (print d ++ rest) ≡ parsed (to_node [] d) rest
unfolding decode_root decode decode_type
decode_root-print d rest is follows =
    let whole = print d ++ rest in
    ap (decode_value (parse_object (suc (length whole))) new_node) (skip_space-print d rest is)
    ∙ decode_doc (suc (length whole)) [] d rest is follows (omega arith)
