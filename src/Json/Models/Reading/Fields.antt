-- ===== src/Json/Models/Reading/Fields.antt =====
-- The fields of a model are found under their names.
use hzrobot.Prelude.{
  false, ℤ, Option, some, none, Bytes, equal, ◌≡◌, ◌∙◌, refl, inl, inr, ap, Option-cases,
}
use hzrobot.Json.{Node, Members, no_members, emplace, lookup}
use hzrobot.Json.Childs.{
  IsOrdered, or_new, emplace-IsOrdered, lookup-emplace_same, lookup-emplace_other,
}
use hzrobot.Json.Documents.{Doc, to_node, add_fields}
use hzrobot.Json.Models.{Columns, no_columns, column, Value, Row}
use hzrobot.Json.Models.Docs.{gather_fields, to_doc, to_fields}

-- The name is none of the columns'.
abbrev pub IsNew : Bytes → Columns → Type 0
IsNew name no_columns = Unit
IsNew name (column other t columns) =
    (equal name other ≡ false) × (equal other name ≡ false) × IsNew name columns

-- The names differ.
abbrev pub AreDistinct : Columns → Type 0
AreDistinct no_columns = Unit
AreDistinct (column name t columns) = IsNew name columns × AreDistinct columns

abbrev pub node_of : Bytes → Option Doc → Option Node
node_of name none = none
node_of name (some d) = some (to_node name d)

module _ (decimal : ℤ → Bytes) where
  -- The children are those of the row's fields, where there is one.
  unfoldable pub Finds : (columns : Columns) → Row columns → Members → Type 0
  unfolding Value
  Finds no_columns row kv = Unit
  Finds (column name t columns) (v, row) kv =
      (lookup name kv ≡ node_of name (to_doc decimal t v)) × Finds columns row kv

  abbrev added : (columns : Columns) → Row columns → Members → Members
  added columns row kv = add_fields kv (gather_fields (to_fields decimal columns row))

  lookup-added_other :
      (name : Bytes) (columns : Columns) (row : Row columns) (kv : Members)
      → IsNew name columns
      → lookup name (added columns row kv) ≡ lookup name kv
  unfolding Value to_doc gather_fields add_fields
  lookup-added_other name no_columns row kv is_new = refl
  lookup-added_other name (column other t columns) (v, row) kv (differs, _, is_new) =
      elim (Option-cases (to_doc decimal t v)) [
        | inl p ↦ rw p (lookup-added_other name columns row kv is_new)
        | inr (d, p) ↦ rw p (
            lookup-added_other name columns row (emplace other (to_node other d) kv) is_new
            ∙ lookup-emplace_other name other (to_node other d) kv differs)
      ]

  -- No name of the columns is that of a child.
  abbrev AreAbsent : Columns → Members → Type 0
  AreAbsent no_columns kv = Unit
  AreAbsent (column name t columns) kv = (lookup name kv ≡ none) × AreAbsent columns kv

  AreAbsent-emplace :
      (name : Bytes) (n : Node) (columns : Columns) (kv : Members)
      → IsNew name columns
      → AreAbsent columns kv
      → AreAbsent columns (emplace name n kv)
  AreAbsent-emplace name n no_columns kv is_new absent = tt
  AreAbsent-emplace name n (column other t columns) kv (_, differs, is_new) (first, absent) = (
    lookup-emplace_other other name n kv differs ∙ first,
    AreAbsent-emplace name n columns kv is_new absent,
  )

  added-Finds :
      (columns : Columns) (row : Row columns) (kv : Members)
      → IsOrdered kv
      → AreDistinct columns
      → AreAbsent columns kv
      → Finds columns row (added columns row kv)
  unfolding Value Finds to_doc gather_fields add_fields
  added-Finds no_columns row kv ordered distinct absent = tt
  added-Finds (column name t columns) (v, row) kv ordered (is_new, distinct) (first, absent) =
      elim (Option-cases (to_doc decimal t v)) [
        | inl p ↦ rw p (
          lookup-added_other name columns row kv is_new ∙ first,
          added-Finds columns row kv ordered distinct absent,
        )
        | inr (d, p) ↦
            let kv' = emplace name (to_node name d) kv in
            let found : lookup name kv' ≡ some (to_node name d) =
              lookup-emplace_same name (to_node name d) kv ordered
              ∙ ap (λ (o : Option Node). or_new o (to_node name d)) first in
            rw p (
              lookup-added_other name columns row kv' is_new ∙ found,
              added-Finds columns row kv' (emplace-IsOrdered name (to_node name d) kv ordered)
                  distinct (AreAbsent-emplace name (to_node name d) columns kv is_new absent),
            )
      ]

  AreAbsent-start : (columns : Columns) → AreAbsent columns no_members
  unfolding lookup
  AreAbsent-start no_columns = tt
  AreAbsent-start (column name t columns) = (refl, AreAbsent-start columns)

  pub fields-Finds :
      (columns : Columns) (row : Row columns)
      → AreDistinct columns
      → Finds columns row (add_fields no_members (gather_fields (to_fields decimal columns row)))
  fields-Finds columns row distinct =
      added-Finds columns row no_members tt distinct (AreAbsent-start columns)
