-- ===== src/Json/Models/Docs.antt =====
-- The documents of Json/Documents that the values of models stand for.
use hzrobot.Prelude.{ℤ, Option, some, none, List, [], ◌∷◌, map, Bytes, All, ◌≢◌}
use hzrobot.Json.Encode.{encode_string}
use hzrobot.Json.Documents.{
  Doc, text, numeral, object, array, Fields, no_fields, field, Docs, no_docs, doc,
}
use hzrobot.Json.Models.{
  FieldType, string_field, int_field, vector_field, map_field, model_field, Columns, no_columns,
  column, Value, Row,
}

-- The documents that are there, as a list and as fields.
unfoldable pub gather : List (Option Doc) → Docs
gather [] = no_docs
gather (none ∷ docs) = gather docs
gather (some d ∷ docs) = doc d (gather docs)

unfoldable pub gather_fields : List (Bytes × Option Doc) → Fields
gather_fields [] = no_fields
gather_fields ((key, none) ∷ fields) = gather_fields fields
gather_fields ((key, some d) ∷ fields) = field key d (gather_fields fields)

unfoldable pub text_doc : Bytes → Option Doc
text_doc [] = none
text_doc (c ∷ cs) = some (text (c ∷ cs))

-- A list is there unless it is empty, whatever its elements are.
unfoldable pub vector_doc : List (Option Doc) → Option Doc
vector_doc [] = none
vector_doc (d ∷ docs) = some (array (gather (d ∷ docs)))

unfoldable pub map_doc : List (Bytes × Option Doc) → Option Doc
map_doc [] = none
map_doc (f ∷ fields) = some (object (gather_fields (f ∷ fields)))

-- A model is there where one of its fields is.
unfoldable pub model_doc : Fields → Option Doc
model_doc no_fields = none
model_doc (field key d fields) = some (object (field key d fields))

module _ (decimal : ℤ → Bytes) where
  -- The document that a value stands for.
  unfoldable mutual
    unfolding Value

    pub to_doc : (t : FieldType) → Value t → Option Doc
    to_doc string_field v = text_doc (encode_string v)
    to_doc int_field v = some (numeral (decimal v))
    to_doc (vector_field t) v = vector_doc (map (to_doc t) v)
    to_doc (map_field t) v =
        map_doc (map (λ (entry : Bytes × Value t). (encode_string entry.0, to_doc t entry.1)) v)
    to_doc (model_field columns) v = model_doc (gather_fields (to_fields columns v))

    pub to_fields : (columns : Columns) → Row columns → List (Bytes × Option Doc)
    to_fields no_columns row = []
    to_fields (column name t columns) (v, row) = (name, to_doc t v) ∷ to_fields columns row

-- No key of a map is empty.
unfoldable mutual
  unfolding Value

  pub HasKeys : (t : FieldType) → Value t → Type 0
  HasKeys string_field v = Unit
  HasKeys int_field v = Unit
  HasKeys (vector_field t) v = All (HasKeys t) v
  HasKeys (map_field t) v = All (λ (entry : Bytes × Value t). (entry.0 ≢ []) × HasKeys t entry.1) v
  HasKeys (model_field columns) v = HaveKeys columns v

  pub HaveKeys : (columns : Columns) → Row columns → Type 0
  HaveKeys no_columns row = Unit
  HaveKeys (column name t columns) (v, row) = HasKeys t v × HaveKeys columns row
