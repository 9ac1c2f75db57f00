-- ===== src/Json/Models/Reading.antt =====
-- `json_decode` of the types that `SHINE_JSON_MODEL` of Include/util/json.hpp declares, for the fields
-- of Json/Models. `atoi` is a parameter, and so is what a number holds that nothing was written to.
pub mod Strings
pub mod Entries
pub mod Fields
pub mod Holds
pub mod Whole
pub mod RoundTrip
use hzrobot.Prelude.{
  ℤ, ℕ, Bool, true, false, if◌then◌else◌, Option, some, none, List, [], ◌∷◌, ◌++◌, Bytes, equal,
}
use hzrobot.Json.{
  Node, Members, no_members, member, Items, no_items, item, less, get_value, kv_childs,
  array_childs, find_kv_child,
}
use hzrobot.Json.Decode.{Parsed, parsed, rejected, thrown, stuck, decode_root}
use hzrobot.Json.Models.{
  FieldType, string_field, int_field, vector_field, map_field, model_field, Columns, no_columns,
  column, Value, Row,
}

-- The elements that `foreach_array_childs` decodes.
unfoldable pub item_values : {A : Type 0} → (Node → A) → Items → List A
item_values decode no_items = []
item_values decode (item n others) = decode n ∷ item_values decode others

-- `std::map::emplace`: an entry that is there stays.
unfoldable pub emplace_value : {A : Type 0} → Bytes → A → List (Bytes × A) → List (Bytes × A)
emplace_value k v [] = (k, v) ∷ []
emplace_value k v ((k', v') ∷ entries) =
    let later = (k', v') ∷ emplace_value k v entries in
    if equal k k'
    then (k', v') ∷ entries
    else if less k k'
    then (k, v) ∷ (k', v') ∷ entries
    else later

-- The entries that `foreach_kv_childs` decodes, behind those that are there.
unfoldable pub member_values :
    {A : Type 0} → (Node → A) → Members → List (Bytes × A) → List (Bytes × A)
member_values decode no_members entries = entries
member_values decode (member k n others) entries =
    member_values decode others (emplace_value k (decode n) entries)

module _ (atoi : Bytes → ℤ) (indeterminate : ℤ) where
  -- What a variable of the type holds when it is declared.
  unfoldable mutual
    unfolding Value

    pub initial : (t : FieldType) → Value t
    initial string_field = []
    initial int_field = indeterminate
    initial (vector_field t) = []
    initial (map_field t) = []
    initial (model_field columns) = initial_row columns

    pub initial_row : (columns : Columns) → Row columns
    initial_row no_columns = tt
    initial_row (column name t columns) = (initial t, initial_row columns)

  -- Into a variable that holds a value; a field that the node does not have keeps its value.
  unfoldable mutual
    unfolding Value

    pub decode_field : (t : FieldType) → Value t → Node → Value t
    decode_field string_field v n = get_value n
    decode_field int_field v n = atoi (get_value n)
    decode_field (vector_field t) v n = item_values (decode_field t (initial t)) (array_childs n)
    decode_field (map_field t) v n = member_values (decode_field t (initial t)) (kv_childs n) []
    decode_field (model_field columns) v n = decode_columns columns v n

    pub decode_columns : (columns : Columns) → Row columns → Node → Row columns
    decode_columns no_columns row n = tt
    decode_columns (column name t columns) (v, row) n = (
      elim (find_kv_child name n) [ none ↦ v | some child ↦ decode_field t v child ],
      decode_columns columns row n,
    )

  -- `json_decode` of a text; `none` stands for an exception.
  unfoldable pub json_decode :
      (columns : Columns) → Bytes → Row columns → Option (Bool × Row columns)
  json_decode columns str row = elim (decode_root str) [
    | parsed n rest ↦ some (true, decode_columns columns row n)
    | rejected n ↦ some (false, row)
    | thrown ↦ none
    | stuck ↦ none
  ]
