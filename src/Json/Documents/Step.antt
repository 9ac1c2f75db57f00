-- ===== src/Json/Documents/Step.antt =====
-- The decoding of one value in Include/util/json.hpp, up to what follows it.
use hzrobot.Prelude.{
  ℕ, suc, true, false, ◌==◌, [], ◌∷◌, ◌++◌, Bytes, All, append_assoc, ◌≡◌, ◌≢◌, refl, ◌∙◌, ap,
  arith,
}
use hzrobot.Json.{
  e_object, e_array, Node, node, new_node, Members, no_members, Items, no_items, emplace, push_back,
}
use hzrobot.Json.Decode.{
  Parsed, parsed, e_decode_key, e_decode_type, is_number, is_digit, skip_space, parse_number,
  decode_value, after_colon, decode_type, keyed_at, key_at, decode, child_at, after_child,
  parse_object,
}
use hzrobot.Json.Documents.{
  IsPrinted, IsDigit, Doc, text, numeral, object, array, Fields, field, IsFilled, IsDoc, print,
  print_fields, print_more, to_node, Follows,
}
use hzrobot.Json.Documents.Scan.{find_char-IsPrinted, skip_space-print}
use hzrobot.Json.Documents.Attach.{attach-named, attach-filled}

-- A field is decoded up to what follows it, where its value is.
pub decode-field :
    (fuel : ℕ) (k : Bytes) (d : Doc) (rest : Bytes)
    → k ≢ []
    → All IsPrinted k
    → IsDoc d
    → decode_value (parse_object fuel) (node e_object k [] no_members no_items) (print d ++ rest)
      ≡ parsed (to_node k d) rest
    → decode (parse_object fuel) e_decode_key new_node (b'"' ∷ k ++ b'"' ∷ b':' ∷ (print d ++ rest))
      ≡ parsed (to_node k d) rest
unfolding decode key_at keyed_at decode_type after_colon skip_space
decode-field fuel [] d rest some_key plain is e = absurd (some_key refl)
decode-field fuel (c ∷ cs) d rest some_key plain is e =
    rw (find_char-IsPrinted (c ∷ cs) (b':' ∷ (print d ++ rest)) plain, skip_space-print d rest is) e

pub decode-item :
    (fuel : ℕ) (d : Doc) (rest : Bytes)
    → IsDoc d
    → decode_value (parse_object fuel) new_node (print d ++ rest) ≡ parsed (to_node [] d) rest
    → decode (parse_object fuel) e_decode_type new_node (print d ++ rest)
      ≡ parsed (to_node [] d) rest
unfolding decode decode_type
decode-item fuel d rest is e = rw (skip_space-print d rest is) e

pub Follows-stop : (d : Doc) (c : ℕ) (rest : Bytes) → is_number c ≡ false → Follows d (c ∷ rest)
Follows-stop (text v) c rest h = tt
Follows-stop (numeral v) c rest h = h
Follows-stop (object fs) c rest h = tt
Follows-stop (array ds) c rest h = tt

pub decode_value-digit :
    (fuel : ℕ) (n : Node) (c : ℕ) (cs : Bytes)
    → IsDigit c
    → decode_value (parse_object fuel) n (c ∷ cs) ≡ parse_number n (c ∷ cs)
unfolding decode_value
decode_value-digit fuel n c cs h =
    let brace : (c == b'{') ≡ false = ground arith in
    let bracket : (c == b'[') ≡ false = ground arith in
    let digit : is_digit c ≡ true = ground arith in rw (brace, bracket, digit) refl

-- A field whose value is decoded, up to the position behind it.
pub parse_object-field :
    (fuel : ℕ) (k key : Bytes) (kv : Members) (d : Doc) (more : Bytes)
    → key ≢ []
    → All IsPrinted key
    → IsDoc d
    → decode_value (parse_object fuel) (node e_object key [] no_members no_items) (print d ++ more)
      ≡ parsed (to_node key d) more
    → parse_object
        (suc fuel)
        (node e_object k [] kv no_items)
        e_decode_key
        b'}'
        (b'"' ∷ key ++ b'"' ∷ b':' ∷ (print d ++ more))
      ≡ child_at
          (λ n cs. parse_object fuel n e_decode_key b'}' cs)
          (node e_object k [] kv no_items)
          (node e_object k [] (emplace key (to_node key d) kv) no_items)
          b'}'
          (skip_space more)
unfolding parse_object after_child
parse_object-field fuel k key kv d more some_key plain is e =
    let n = node e_object k [] kv no_items in
    let next : Node → Bytes → Parsed = λ m cs. parse_object fuel m e_decode_key b'}' cs in
    ap (after_child next n b'}') (decode-field fuel key d more some_key plain is e)
    ∙ ap (λ m. child_at next n m b'}' (skip_space more))
        (attach-named key d [] k [] kv no_items some_key)

pub parse_object-item :
    (fuel : ℕ) (k : Bytes) (arr : Items) (d : Doc) (more : Bytes)
    → IsDoc d
    → IsFilled d
    → decode_value (parse_object fuel) new_node (print d ++ more) ≡ parsed (to_node [] d) more
    → parse_object
        (suc fuel)
        (node e_array k [] no_members arr)
        e_decode_type
        b']'
        (print d ++ more)
      ≡ child_at
          (λ n cs. parse_object fuel n e_decode_type b']' cs)
          (node e_array k [] no_members arr)
          (node e_array k [] no_members (push_back (to_node [] d) arr))
          b']'
          (skip_space more)
unfolding parse_object after_child
parse_object-item fuel k arr d more is filled e =
    let n = node e_array k [] no_members arr in
    let next : Node → Bytes → Parsed = λ m cs. parse_object fuel m e_decode_type b']' cs in
    ap (after_child next n b']') (decode-item fuel d more is e)
    ∙ ap (λ m. child_at next n m b']' (skip_space more))
        (attach-filled d k [] no_members arr is filled)

pub field_text :
    (key : Bytes) (d : Doc) (fs : Fields) (rest : Bytes)
    → print_fields (field key d fs) ++ rest
      ≡ b'"' ∷ key ++ b'"' ∷ b':' ∷ (print d ++ (print_more fs ++ rest))
unfolding print_fields
field_text key d fs rest = simp append_assoc
