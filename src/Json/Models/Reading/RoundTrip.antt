-- ===== src/Json/Models/Reading/RoundTrip.antt =====
-- What is written of a value is read as the value.
use hzrobot.Prelude.{
  ℤ, IsInt, true, Option, some, none, List, [], ◌∷◌, map, Bytes, All, ◌≡◌, ◌≢◌, ◌∙◌, refl, sym, ap,
  ap₂, subst, append-nil,
}
use hzrobot.Json.{Node, node, e_object, Members, no_members, no_items}
use hzrobot.Json.Encode.{encode_string}
use hzrobot.Json.Decode.{decode_root, parsed}
use hzrobot.Json.Documents.{Doc, no_fields, IsDoc, AreDocs, AreFields, Follows, to_node, add_fields}
use hzrobot.Json.Models.{
  FieldType, string_field, int_field, vector_field, map_field, model_field, Columns, no_columns,
  column, Value, Row, json_encode, encode_field,
}
use hzrobot.Json.Models.Docs.{
  gather, gather_fields, vector_doc, map_doc, model_doc, to_doc, to_fields, HasKeys, HaveKeys,
}
use hzrobot.Json.Models.Printing.{decode_root-encode_field}
use hzrobot.Json.Models.Reading.{
  item_values, member_values, initial, initial_row, decode_field, decode_columns, json_decode,
}
use hzrobot.Json.Models.Reading.Strings.{encode_string-left}
use hzrobot.Json.Models.Reading.Entries.{IsRead, member_values-entries}
use hzrobot.Json.Models.Reading.Fields.{AreDistinct, node_of, Finds, fields-Finds}
use hzrobot.Json.Models.Reading.Holds.{
  text-holds, number-holds, vector-holds, map-holds, model-holds, IsReadItem, item_values-items,
}
use hzrobot.Json.Models.Reading.Whole.{
  IsWhole, AreWhole, encode_string-nil, model_doc-nil, gather_fields-nil, IsDocThere,
  AreFields-split, AreFields-key, AreDocs-split, find-lookup,
}

module _ (decimal : ℤ → Bytes) (atoi : Bytes → ℤ) (indeterminate : ℤ)
    (reads : (z : ℤ) → IsInt z → atoi (decimal z) ≡ z) where
  -- A value that no document stands for is what a variable holds when it is declared.
  mutual
    unfolding Value to_doc initial vector_doc map_doc model_doc gather_fields

    absent-initial :
        (t : FieldType) (v : Value t) → to_doc decimal t v ≡ none → v ≡ initial atoi indeterminate t
    absent-initial string_field v h = encode_string-nil v h
    absent-initial int_field v h = cc
    absent-initial (vector_field t) [] h = refl
    absent-initial (vector_field t) (x ∷ xs) h = cc
    absent-initial (map_field t) [] h = refl
    absent-initial (map_field t) (x ∷ xs) h = cc
    absent-initial (model_field columns) row h = absent-initial_row columns row (model_doc-nil _ h)

    absent-initial_row :
        (columns : Columns) (row : Row columns)
        → gather_fields (to_fields decimal columns row) ≡ no_fields
        → row ≡ initial_row atoi indeterminate columns
    absent-initial_row no_columns row h = refl
    absent-initial_row (column name t columns) (v, row) h =
        let (nothing, later) =
          gather_fields-nil name (to_doc decimal t v) (to_fields decimal columns row) h in
        ap₂ (λ (x : Value t) (r : Row columns). (x, r)) (absent-initial t v nothing)
          (absent-initial_row columns row later)

  -- What stands for a value is read as it.
  abbrev IsReadAs : (t : FieldType) → Value t → Type 0
  IsReadAs t v =
      (k : Bytes) (d : Doc)
      → to_doc decimal t v ≡ some d
      → IsDoc d
      → decode_field atoi indeterminate t (initial atoi indeterminate t) (to_node k d) ≡ v

  abbrev reader : (t : FieldType) → Node → Value t
  reader t = decode_field atoi indeterminate t (initial atoi indeterminate t)

  items-IsReadItem :
      (t : FieldType) (xs : List (Value t))
      → ((x : Value t) → IsWhole decimal t x → IsReadAs t x)
      → All (λ (x : Value t). ((d : Doc) × (to_doc decimal t x ≡ some d)) × IsWhole decimal t x) xs
      → AreDocs (gather (map (to_doc decimal t) xs))
      → All (IsReadItem (reader t) (to_doc decimal t)) xs
  items-IsReadItem t [] read all docs = tt
  items-IsReadItem t (x ∷ xs) read (((d, stands), whole), all) docs =
      let (is, rest) =
        AreDocs-split d (to_doc decimal t x) (map (to_doc decimal t) xs) stands docs in
      ((d, stands, read x whole [] d stands is), items-IsReadItem t xs read all rest)

  entries-IsRead :
      (t : FieldType) (entries : List (Bytes × Value t))
      → ((x : Value t) → IsWhole decimal t x → IsReadAs t x)
      → All
          (λ (e : Bytes × Value t).
            ((d : Doc) × (to_doc decimal t e.1 ≡ some d)) × IsWhole decimal t e.1)
          entries
      → AreFields (
          gather_fields
            (map (λ (e : Bytes × Value t). (encode_string e.0, to_doc decimal t e.1)) entries))
      → All (IsRead (reader t) (to_doc decimal t)) entries
  entries-IsRead t [] read all fields = tt
  entries-IsRead t ((k, x) ∷ entries) read (((d, stands), whole), all) fields =
      let (printed, is, rest) =
        AreFields-key (encode_string k) d (to_doc decimal t x)
          (map (λ (e : Bytes × Value t). (encode_string e.0, to_doc decimal t e.1)) entries) stands
          fields in
      (
        (d, stands, encode_string-left k printed, read x whole k d stands is),
        entries-IsRead t entries read all rest,
      )

  -- A column, with the child that its name finds.
  column-IsReadAs :
      (name : Bytes) (t : FieldType) (v : Value t) (o : Option Doc)
      → to_doc decimal t v ≡ o
      → IsDocThere o
      → IsReadAs t v
      → elim (node_of name o) [ none ↦ initial atoi indeterminate t | some child ↦ reader t child ]
        ≡ v
  column-IsReadAs name t v none stands is read = sym (absent-initial t v stands)
  column-IsReadAs name t v (some d) stands is read = read name d stands is

  mutual
    unfolding Value IsWhole to_doc decode_field initial item_values to_node Finds

    decode_field-IsReadAs : (t : FieldType) (v : Value t) → IsWhole decimal t v → IsReadAs t v
    decode_field-IsReadAs string_field v whole k d stands is =
        let (holds, printed) = text-holds k (encode_string v) d stands is in
        holds ∙ encode_string-left v printed
    decode_field-IsReadAs int_field v whole k d stands is =
        ap atoi (number-holds k (decimal v) d stands) ∙ reads v whole
    decode_field-IsReadAs (vector_field t) v whole k d stands is =
        let (holds, docs) = vector-holds k (map (to_doc decimal t) v) d stands is in
        ap (item_values (reader t)) holds
        ∙ item_values-items (reader t) (to_doc decimal t) v no_items
            (items-IsReadItem t v (decode_field-IsReadAs t) whole docs)
    decode_field-IsReadAs (map_field t) v (whole, ascending) k d stands is =
        let (holds, fields) =
          map-holds k (map (λ (e : Bytes × Value t). (encode_string e.0, to_doc decimal t e.1)) v) d
            stands is in
        ap (λ (kv : Members). member_values (reader t) kv []) holds
        ∙ member_values-entries (reader t) (to_doc decimal t) v
            (entries-IsRead t v (decode_field-IsReadAs t) whole fields) ascending
    decode_field-IsReadAs (model_field columns) row (distinct, whole) k d stands is =
        let (holds, fields) =
          model-holds k (gather_fields (to_fields decimal columns row)) d stands is in
        ap
          (λ (e : Doc).
            decode_columns atoi indeterminate columns (initial_row atoi indeterminate columns)
              (to_node k e))
          holds
        ∙ decode_columns-row columns row k
            (add_fields no_members (gather_fields (to_fields decimal columns row))) whole fields
            (fields-Finds decimal columns row distinct)

    decode_columns-row :
        (columns : Columns) (row : Row columns) (k : Bytes) (kv : Members)
        → AreWhole decimal columns row
        → AreFields (gather_fields (to_fields decimal columns row))
        → Finds decimal columns row kv
        → decode_columns atoi indeterminate columns
            (initial_row atoi indeterminate columns)
            (node e_object k [] kv no_items)
          ≡ row
    decode_columns-row no_columns row k kv whole fields finds = refl
    decode_columns-row (column name t columns) (v, row) k kv (first, whole) fields (found, finds) =
        let (is, rest) =
          AreFields-split name (to_doc decimal t v) (to_fields decimal columns row) fields in
        ap₂ (λ (x : Value t) (r : Row columns). (x, r))
          (ap
              (λ (o : Option Node). elim o [
                | none ↦ initial atoi indeterminate t
                | some child ↦ reader t child
              ])
              (find-lookup name k kv ∙ found)
            ∙ column-IsReadAs name t v (to_doc decimal t v) refl is
                (decode_field-IsReadAs t v first))
          (decode_columns-row columns row k kv whole rest finds)

  json_decode-parsed :
      (shape : Columns) (str : Bytes) (n : Node) (row : Row shape)
      → decode_root str ≡ parsed n []
      → json_decode atoi indeterminate shape str row
        ≡ some (true, decode_columns atoi indeterminate shape row n)
  unfolding json_decode
  json_decode-parsed shape str n row decoded = rw (decoded, json_decode) refl

  -- `json_decode` of the text that `json_encode` gives for an object, into a new object, returns true
  -- and gives the first object back, where it stands for a document whose strings hold no quote and
  -- no backslash, whose keys are not empty, whose numbers are digits and whose lists hold nothing
  -- that is empty; no key of a map is empty, no element of a vector or entry of a map stands for
  -- nothing, the keys of maps are in order, the names of fields differ, and 32 bits hold the numbers;
  -- the texts of numbers are not empty and `atoi` reads that of an `int` back.
  pub json_decode-json_encode :
      (columns : Columns) (row : Row columns) (d : Doc)
      → ((z : ℤ) → decimal z ≢ [])
      → HaveKeys columns row
      → AreDistinct columns
      → AreWhole decimal columns row
      → model_doc (gather_fields (to_fields decimal columns row)) ≡ some d
      → IsDoc d
      → json_decode atoi indeterminate columns
          (json_encode decimal columns row)
          (initial_row atoi indeterminate columns)
        ≡ some (true, row)
  unfolding json_decode json_encode Value IsWhole HasKeys to_doc encode_field initial decode_field
  json_decode-json_encode columns row d given keys distinct whole stands is =
      let (same, _) = model-holds [] (gather_fields (to_fields decimal columns row)) d stands is in
      let decoded =
        ap decode_root (sym (append-nil (encode_field decimal (model_field columns) row)))
        ∙ decode_root-encode_field decimal given (model_field columns) row d [] keys stands is
            (subst (λ (e : Doc). Follows e []) (sym same) tt) in
      json_decode-parsed columns (json_encode decimal columns row) (to_node [] d)
        (initial_row atoi indeterminate columns) decoded
      ∙ ap (λ (r : Row columns). some (true, r))
          (decode_field-IsReadAs (model_field columns) row (distinct, whole) [] d stands is)
