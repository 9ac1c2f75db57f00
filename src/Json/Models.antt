-- ===== src/Json/Models.antt =====
-- The fields of the types that `SHINE_JSON_MODEL` of Include/util/json.hpp declares, as far as the
-- program's types use them: strings, numbers of the type `int`, vectors, maps from strings, and
-- such types themselves. An `int` is an integer, of which the theorems take those that 32 bits hold;
-- the text that `%d` gives is a parameter.
pub mod Docs
pub mod Joining
pub mod Printing
pub mod Reading
use hzrobot.Prelude.{
  ℤ, ℕ, Bool, true, false, Option, some, none, List, [], ◌∷◌, ◌++◌, map, Bytes, codes,
}
use hzrobot.Json.{Node, Members, no_members, member, Items, no_items, item}
use hzrobot.Json.Encode.{encode_string}

mutual
  pub data FieldType : Type 0 where
    string_field int_field : FieldType
    vector_field map_field : FieldType → FieldType
    model_field : Columns → FieldType

  -- The names and types of a type's fields, in the order of their declaration.
  pub data Columns : Type 0 where
    no_columns : Columns
    column : (name : Bytes) → FieldType → Columns → Columns

-- The values; a map is the list of its entries in the order of their keys.
unfoldable mutual
  pub Value : FieldType → Type 0
  Value string_field = Bytes
  Value int_field = ℤ
  Value (vector_field t) = List (Value t)
  Value (map_field t) = List (Bytes × Value t)
  Value (model_field columns) = Row columns

  pub Row : Columns → Type 0
  Row no_columns = Unit
  Row (column name t columns) = Value t × Row columns

-- The texts that are not empty, with commas between them; the flag is the source's `empty`.
unfoldable pub join : Bool → List Bytes → Bytes
join empty [] = []
join empty ([] ∷ texts) = join empty texts
join true ((c ∷ cs) ∷ texts) = (c ∷ cs) ++ join false texts
join false ((c ∷ cs) ∷ texts) = b',' ∷ (c ∷ cs) ++ join false texts

-- In the delimiters, where there is a text.
unfoldable pub enclose : (first last : ℕ) → Bytes → Bytes
enclose first last [] = []
enclose first last (c ∷ cs) = first ∷ (c ∷ cs) ++ last ∷ []

-- A field with its name, where it has a text.
unfoldable pub named : Bytes → Bytes → Bytes
named key [] = []
named key (c ∷ cs) = key ++ b':' ∷ c ∷ cs

-- `json_encode_field` of a string.
unfoldable pub encode_text : Bytes → Bytes
encode_text text = enclose b'"' b'"' (encode_string text)

-- Of a vector and of a map, with the texts of the elements.
unfoldable pub encode_vector : List Bytes → Bytes
encode_vector [] = []
encode_vector (t ∷ texts) = b'[' ∷ join true (t ∷ texts) ++ codes "]"

unfoldable pub encode_map : List Bytes → Bytes
encode_map [] = []
encode_map (t ∷ texts) = b'{' ∷ join true (t ∷ texts) ++ codes "}"

module _ (decimal : ℤ → Bytes) where
  unfoldable mutual
    unfolding Value

    pub encode_field : (t : FieldType) → Value t → Bytes
    encode_field string_field v = encode_text v
    encode_field int_field v = decimal v
    encode_field (vector_field t) v = encode_vector (map (encode_field t) v)
    encode_field (map_field t) v =
        encode_map (
          map (λ (entry : Bytes × Value t). named (encode_text entry.0) (encode_field t entry.1)) v)
    encode_field (model_field columns) v = enclose b'{' b'}' (join true (encode_columns columns v))

    pub encode_columns : (columns : Columns) → Row columns → List Bytes
    encode_columns no_columns row = []
    encode_columns (column name t columns) (v, row) =
        named (b'"' ∷ name ++ codes "\"") (encode_field t v) ∷ encode_columns columns row

-- `json_encode` of a type that `SHINE_JSON_MODEL` declares.
unfoldable pub json_encode : (decimal : ℤ → Bytes) (columns : Columns) → Row columns → Bytes
json_encode decimal columns row = enclose b'{' b'}' (join true (encode_columns decimal columns row))
