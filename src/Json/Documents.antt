-- ===== src/Json/Documents.antt =====
-- Whole documents in Include/util/json.hpp: an independent description of JSON texts without
-- spaces, which the decoder reads.
pub mod Scan
pub mod Attach
pub mod Step
pub mod Decoding
use hzrobot.Prelude.{
  and_left, and_right, ℕ, zero, suc, ◌+◌, ◌<◌, ◌≤◌, Bool, true, false, not, ◌&&◌, ◌||◌, ◌==◌, leb,
  if◌then◌else◌, Option, some, none, List, [], ◌∷◌, ◌++◌, Bytes, All, equal, codes, length, drop,
  take, length-append, append_assoc, ◌≡◌, ◌≢◌, ◌⊎◌, inl, inr, refl, ◌∙◌, ap, sym, subst, arith,
  Bool-cases,
}
use mathlib.Core.Option
use hzrobot.Text.Search.{starts_with, find_first, find_last}
use hzrobot.Json.{
  e_string, e_integer, e_object, e_array, Node, node, new_node, Members, no_members, member, Items,
  no_items, item, kv_size, array_size, emplace, less, push_back,
}
use hzrobot.Json.Decode.{
  ends_in_dot, is_none_or_zero, same_position, Parsed, parsed, DecodeStep, e_decode_key,
  e_decode_type, is_blank, is_number, is_digit, skip_space, skip_number, find_char, is_good_number,
  number_kind, number_at, parse_number, scan_string, string_at, parse_string, attach, as_kind,
  signed, decode_value, after_colon, decode_type, keyed_at, key_at, decode, child_at, after_child,
  parse_object, decode_root,
}

-- A character of a string: no quote and no backslash.
abbrev pub IsPrinted : ℕ → Type 0
IsPrinted c = (c ≢ b'\\') × (c ≢ b'"')

-- No character is a quote or a backslash, by evaluation.
abbrev pub printed : Bytes → Bool
printed [] = true
printed (c ∷ cs) = not (c == b'\\') && not (c == b'"') && printed cs

pub printed-All : (cs : Bytes) → printed cs ≡ true → All IsPrinted cs
printed-All [] h = tt
printed-All (c ∷ cs) h =
    let first : not (c == b'\\') && not (c == b'"') ≡ true = and_left _ _ h in
    (
      ((λ e. ground (arith, e, first)), (λ e. ground (arith, e, first))),
      printed-All cs (and_right (not (c == b'\\') && not (c == b'"')) _ h),
    )

abbrev pub IsDigit : ℕ → Type 0
IsDigit c = (b'0' ≤ c) × (c ≤ b'9')

mutual
  pub data Doc : Type 0 where
    text numeral : Bytes → Doc
    object : Fields → Doc
    array : Docs → Doc

  pub data Fields : Type 0 where
    no_fields : Fields
    field : (key : Bytes) (value : Doc) (others : Fields) → Fields

  pub data Docs : Type 0 where
    no_docs : Docs
    doc : Doc → Docs → Docs

-- What the decoder would drop from a list: an empty string, object or list.
abbrev pub IsFilled : Doc → Type 0
IsFilled (text []) = ⊥
IsFilled (object no_fields) = ⊥
IsFilled (array no_docs) = ⊥
IsFilled _ = Unit

unfoldable mutual
  pub IsDoc : Doc → Type 0
  IsDoc (text v) = All IsPrinted v
  IsDoc (numeral v) = (v ≢ []) × All IsDigit v
  IsDoc (object fs) = AreFields fs
  IsDoc (array ds) = AreDocs ds

  pub AreFields : Fields → Type 0
  AreFields no_fields = Unit
  AreFields (field k d fs) = (k ≢ []) × All IsPrinted k × IsDoc d × AreFields fs

  pub AreDocs : Docs → Type 0
  AreDocs no_docs = Unit
  AreDocs (doc d ds) = IsDoc d × IsFilled d × AreDocs ds

-- The texts. `print_more` has a comma before each field.
unfoldable mutual
  pub print : Doc → Bytes
  print (text v) = b'"' ∷ v ++ codes "\""
  print (numeral v) = v
  print (object fs) = b'{' ∷ print_fields fs ++ codes "}"
  print (array ds) = b'[' ∷ print_docs ds ++ codes "]"

  pub print_fields : Fields → Bytes
  print_fields no_fields = []
  print_fields (field k d fs) = b'"' ∷ k ++ (codes "\":" ++ (print d ++ print_more fs))

  pub print_more : Fields → Bytes
  print_more no_fields = []
  print_more (field k d fs) = b',' ∷ b'"' ∷ k ++ (codes "\":" ++ (print d ++ print_more fs))

  pub print_docs : Docs → Bytes
  print_docs no_docs = []
  print_docs (doc d ds) = print d ++ print_rest ds

  pub print_rest : Docs → Bytes
  print_rest no_docs = []
  print_rest (doc d ds) = b',' ∷ print d ++ print_rest ds

-- The nodes: the fields go into the map in turn, where the first of a key stays.
unfoldable mutual
  pub to_node : Bytes → Doc → Node
  to_node k (text v) = node e_string k v no_members no_items
  to_node k (numeral v) = node e_integer k v no_members no_items
  to_node k (object fs) = node e_object k [] (add_fields no_members fs) no_items
  to_node k (array ds) = node e_array k [] no_members (add_docs no_items ds)

  pub add_fields : Members → Fields → Members
  add_fields kv no_fields = kv
  add_fields kv (field k d fs) = add_fields (emplace k (to_node k d) kv) fs

  pub add_docs : Items → Docs → Items
  add_docs arr no_docs = arr
  add_docs arr (doc d ds) = add_docs (push_back (to_node [] d) arr) ds

-- What a text may be followed by: a numeral by a character that is none of a number.
abbrev pub Follows : Doc → Bytes → Type 0
Follows (numeral v) [] = ⊥
Follows (numeral v) (c ∷ cs) = is_number c ≡ false
Follows _ rest = Unit
