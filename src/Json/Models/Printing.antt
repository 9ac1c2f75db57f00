-- ===== src/Json/Models/Printing.antt =====
-- The texts of models are those of the documents of Json/Documents.
use hzrobot.Prelude.{ℤ, Option, some, List, [], ◌∷◌, ◌++◌, map, Bytes, All, ◌≡◌, ◌≢◌, refl, ◌∙◌, ap}
use hzrobot.Json.Encode.{encode_string}
use hzrobot.Json.Decode.{decode_root, parsed}
use hzrobot.Json.Documents.{Doc, print, IsDoc, Follows, to_node}
use hzrobot.Json.Documents.Decoding.{decode_root-print}
use hzrobot.Json.Models.{
  FieldType, string_field, int_field, vector_field, map_field, model_field, Columns, no_columns,
  column, Value, Row, named, encode_text, encode_field, encode_columns,
}
use hzrobot.Json.Models.Docs.{to_doc, to_fields, HasKeys, HaveKeys}
use hzrobot.Json.Models.Joining.{
  print_there, Says, Agree, agree_nil, agree_cons, AgreeFields, agree_no_fields, agree_field,
  join-fields, enclose-model, encode_vector-Says, encode_map-Says, encode_text-Says, enclose-filled,
  encode_string-filled,
}

module _ {A : Type 0} (P : A → Type 0) where
  map-Agree :
      (f : A → Bytes) (g : A → Option Doc)
      → ((x : A) → P x → Says (f x) (g x))
      → (xs : List A) → All P xs
      → Agree (map f xs) (map g xs)
  map-Agree f g says [] all = agree_nil
  map-Agree f g says (x ∷ xs) (p, all) = agree_cons (says x p) (map-Agree f g says xs all)

module _ (decimal : ℤ → Bytes) (given : (z : ℤ) → decimal z ≢ []) where
  map-AgreeFields :
      {A : Type 0} (P : A → Type 0) (f : A → Bytes) (g : A → Option Doc)
      → ((x : A) → P x → Says (f x) (g x))
      → (entries : List (Bytes × A))
      → All (λ (entry : Bytes × A). (entry.0 ≢ []) × P entry.1) entries
      → AgreeFields
          (map (λ (entry : Bytes × A). named (encode_text entry.0) (f entry.1)) entries)
          (map (λ (entry : Bytes × A). (encode_string entry.0, g entry.1)) entries)
  unfolding encode_text
  map-AgreeFields P f g says [] all = agree_no_fields
  map-AgreeFields P f g says ((key, x) ∷ entries) ((nonempty, p), all) =
      rw (enclose-filled b'"' b'"' (encode_string key) (encode_string-filled key nonempty))
        (agree_field (says x p) (map-AgreeFields P f g says entries all))

  mutual
    unfolding Value HasKeys encode_field to_doc encode_text print

    encode_field-Says :
        (t : FieldType) (v : Value t)
        → HasKeys t v
        → Says (encode_field decimal t v) (to_doc decimal t v)
    encode_field-Says string_field v keys = encode_text-Says (encode_string v)
    encode_field-Says int_field v keys = (refl, given v)
    encode_field-Says (vector_field t) v keys = encode_vector-Says _ _ (
        map-Agree (HasKeys t) (encode_field decimal t) (to_doc decimal t)
          (λ x k. encode_field-Says t x k) v keys)
    encode_field-Says (map_field t) v keys = encode_map-Says _ _ (
        map-AgreeFields (HasKeys t) (encode_field decimal t) (to_doc decimal t)
          (λ x k. encode_field-Says t x k) v keys)
    encode_field-Says (model_field columns) row keys =
        enclose-model _ _ (join-fields _ _ (encode_columns-AgreeFields columns row keys)).0

    encode_columns-AgreeFields :
        (columns : Columns) (row : Row columns)
        → HaveKeys columns row
        → AgreeFields (encode_columns decimal columns row) (to_fields decimal columns row)
    encode_columns-AgreeFields no_columns row keys = agree_no_fields
    encode_columns-AgreeFields (column name t columns) (v, row) (key, keys) =
        agree_field (encode_field-Says t v key) (encode_columns-AgreeFields columns row keys)

  -- The text of a value is that of the document that it stands for, and is empty where it stands for
  -- none, where no number's text and no key of a map is empty.
  encode_field-print :
      (t : FieldType) (v : Value t)
      → HasKeys t v
      → encode_field decimal t v ≡ print_there (to_doc decimal t v)
  encode_field-print t v keys = (encode_field-Says t v keys).0

  -- `json::decode` reads the text of a value as the document that it stands for, and leaves what
  -- follows it, where no number's text and no key of a map is empty, the document's strings hold no
  -- quote and no backslash, its keys are not empty, its numbers are digits and its lists hold
  -- nothing that is empty, with a character that is none of a number behind a numeral.
  pub decode_root-encode_field :
      (t : FieldType) (v : Value t) (d : Doc) (rest : Bytes)
      → HasKeys t v
      → to_doc decimal t v ≡ some d
      → IsDoc d
      → Follows d rest
      → decode_root (encode_field decimal t v ++ rest) ≡ parsed (to_node [] d) rest
  decode_root-encode_field t v d rest keys stands is follows =
      ap (λ (r : Bytes). decode_root (r ++ rest))
        (encode_field-print t v keys ∙ ap print_there stands)
      ∙ decode_root-print d rest is follows
