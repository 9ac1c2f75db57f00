-- ===== src/Config/Body.antt =====
-- The body that `PhotoTask::execute` sends after `loadphoto_config`: `json_encode` of
-- `photo_config`.
use hzrobot.Prelude.{
  ℤ, pos, true, ◌≤◌, ◌<◌, ◌^◌, subst, length, Option, none, ℕ, some, List, [], ◌∷◌, map, Bytes,
  codes, All, equal, ◌≡◌, ◌≢◌, refl, ap, sym, ◌∙◌, append-nil,
}
use hzrobot.Json.{Node, get_value, find_kv_child, same_kind, lookup, emplace, less}
use hzrobot.Json.Encode.{encode_string, encode_char}
use hzrobot.Json.Decode.{parsed, decode_root}
use hzrobot.Json.Documents.{
  printed-All, Doc, numeral, object, no_fields, field, Docs, IsDigit, IsDoc, Fields, AreFields,
  AreDocs, to_node,
}
use hzrobot.Json.Models.{
  int_field, vector_field, map_field, model_field, Value, Row, json_encode, encode_field,
}
use hzrobot.Json.Models.Docs.{
  gather, gather_fields, vector_doc, map_doc, model_doc, to_doc, HasKeys,
}
use hzrobot.Json.Models.Printing.{decode_root-encode_field}
use hzrobot.Config.{photo_rows, photo_columns, Document, Config, put_entry, returned}
use hzrobot.Config.Photo.{Cell, first_row, with_table, loadphoto_config}
use hzrobot.Config.Table.{AreRows, cell_count, row_of, loadphoto_config-with_table}

-- `photo_config` before a load, with the rows of an earlier load where there was one.
unfoldable pub earlier : (type tablenum : ℤ) → Option (List (List Cell)) → Row photo_columns
unfolding Value
earlier type tablenum none = (type, (tablenum, ([], tt)))
earlier type tablenum (some rows) = (type, (tablenum, ((codes "row", (rows, tt)) ∷ [], tt)))

-- The body that is sent.
abbrev pub body_of : (ℤ → Bytes) → Config → Bytes
body_of decimal config = json_encode decimal photo_columns config.photo_config

module _ (decimal : ℤ → Bytes) (given : (z : ℤ) → decimal z ≢ [])
    (digits : (n : ℕ) → n < 2 ^ 31 → All IsDigit (decimal (pos n))) (atoi : Bytes → ℤ) where
  -- The text is read as an `int` that is not negative.
  abbrev pub IsCamtype : Bytes → Type 0
  IsCamtype text = (n : ℕ) × (atoi text ≡ pos n) × (n < 2 ^ 31)

  -- The documents of the cells of a row, and of the rows.
  unfoldable cells_docs : List Bytes → Docs
  unfolding Value
  cells_docs texts = gather (map (to_doc decimal (map_field int_field)) (row_of atoi texts))

  unfoldable rows_docs : List (List Bytes) → Docs
  unfolding Value
  rows_docs table =
      gather (map (to_doc decimal (vector_field (map_field int_field))) (map (row_of atoi) table))

  cells-AreDocs : (texts : List Bytes) → All IsCamtype texts → AreDocs (cells_docs texts)
  unfolding cells_docs Value to_doc gather map_doc gather_fields encode_string encode_char IsDoc
  cells-AreDocs [] are = tt
  cells-AreDocs (t ∷ texts) ((n, reads, small), are) =
      let has_digits = subst (λ (z : ℤ). All IsDigit (decimal z)) (sym reads) (digits n small) in
      (
        ((λ e. cc), printed-All (codes "camtype") refl, (given (atoi t), has_digits), tt),
        tt,
        cells-AreDocs texts are,
      )

  -- The rows that have cells.
  rows-AreDocs : (table : List (List Bytes)) → All (All IsCamtype) table → AreDocs (rows_docs table)
  unfolding rows_docs cells_docs Value to_doc gather vector_doc IsDoc map_doc gather_fields
  rows-AreDocs [] are = tt
  rows-AreDocs ([] ∷ table) (_, are) = rows-AreDocs table are
  rows-AreDocs ((t ∷ texts) ∷ table) (row, are) =
      (cells-AreDocs (t ∷ texts) row, tt, rows-AreDocs table are)

  unfoldable RowHasKeys : List Bytes → Type 0
  unfolding Value
  RowHasKeys texts = HasKeys (vector_field (map_field int_field)) (row_of atoi texts)

  unfoldable TableHasKeys : List (List Bytes) → Type 0
  unfolding Value
  TableHasKeys table =
      HasKeys (vector_field (vector_field (map_field int_field))) (map (row_of atoi) table)

  row-RowHasKeys : (texts : List Bytes) → RowHasKeys texts
  unfolding RowHasKeys Value HasKeys
  row-RowHasKeys [] = tt
  row-RowHasKeys (t ∷ texts) = ((((λ e. cc), tt), tt), row-RowHasKeys texts)

  table-TableHasKeys : (table : List (List Bytes)) → TableHasKeys table
  unfolding TableHasKeys RowHasKeys Value HasKeys
  table-TableHasKeys [] = tt
  table-TableHasKeys (texts ∷ table) = (row-RowHasKeys texts, table-TableHasKeys table)

  -- What `param` holds after a load, in a configuration that held nothing there.
  unfoldable param_doc : List (List Bytes) → Fields
  unfolding Value
  param_doc table =
      gather_fields
        ((codes "row", to_doc decimal (model_field photo_rows) (map (row_of atoi) table, tt)) ∷ [])

  param-AreFields :
      (table : List (List Bytes)) → All (All IsCamtype) table → AreFields (param_doc table)
  unfolding param_doc Value to_doc gather vector_doc IsDoc map_doc gather_fields model_doc rows_docs
  param-AreFields [] are = tt
  param-AreFields (texts ∷ table) are = (
    (λ e. cc),
    printed-All (codes "row") refl,
    ((λ e. cc), printed-All (codes "param") refl, rows-AreDocs (texts ∷ table) are, tt),
    tt,
  )

  unfoldable photo_doc : (type : ℕ) → List (List Bytes) → Doc
  photo_doc type table = object (
      field (codes "type") (numeral (decimal (pos type))) (
        field (codes "tablenum") (numeral (decimal (pos (cell_count table))))
          (field (codes "param") (object (param_doc table)) no_fields)))

  photo-IsDoc :
      (type : ℕ) (table : List (List Bytes))
      → type < 2 ^ 31
      → cell_count table < 2 ^ 31
      → All (All IsCamtype) table
      → IsDoc (photo_doc type table)
  unfolding photo_doc IsDoc
  photo-IsDoc type table type_small small are = (
    (λ e. cc),
    printed-All (codes "type") refl,
    (given (pos type), digits type type_small),
    (
      (λ e. cc),
      printed-All (codes "tablenum") refl,
      (given (pos (cell_count table)), digits (cell_count table) small),
      ((λ e. cc), printed-All (codes "param") refl, param-AreFields table are, tt),
    ),
  )

  -- `photo_config` after it.
  unfoldable loaded : (type : ℕ) → List (List Bytes) → Row photo_columns
  unfolding Value
  loaded type table =
      (pos type, (pos (cell_count table), ((codes "row", (map (row_of atoi) table, tt)) ∷ [], tt)))

  -- The change of `photo_config`.
  unfoldable loads : List (List Bytes) → Row photo_columns → Row photo_columns
  unfolding Value
  loads table row = (
    row.0,
    (
      pos (cell_count table),
      (put_entry (codes "row") (map (row_of atoi) table, tt) row.1.1.0, row.1.1.1),
    ),
  )

  loads-earlier :
      (type : ℕ) (old_tablenum : ℤ) (old : Option (List (List Cell))) (table : List (List Bytes))
      → loads table (earlier (pos type) old_tablenum old) ≡ loaded type table
  unfolding loads earlier loaded Value put_entry equal
  loads-earlier type old_tablenum none table = refl
  loads-earlier type old_tablenum (some rows) table = refl

  with_table-loaded :
      (type : ℕ) (old_tablenum : ℤ) (old : Option (List (List Cell))) (table : List (List Bytes))
      (config : Config)
      → config.photo_config ≡ earlier (pos type) old_tablenum old
      → (with_table config (cell_count table, map (row_of atoi) table)).photo_config
        ≡ loaded type table
  unfolding with_table loads Value
  with_table-loaded type old_tablenum old table config was =
      ap (loads table) was ∙ loads-earlier type old_tablenum old table

  loaded-decoded :
      (type : ℕ) (table : List (List Bytes))
      → type < 2 ^ 31
      → cell_count table < 2 ^ 31
      → All (All IsCamtype) table
      → decode_root (json_encode decimal photo_columns (loaded type table))
        ≡ parsed (to_node [] (photo_doc type table)) []
  unfolding loaded Value json_encode encode_field HasKeys TableHasKeys to_doc photo_doc param_doc
      map_doc model_doc gather_fields encode_string encode_char
  loaded-decoded type table type_small small are =
      ap decode_root (sym (append-nil (json_encode decimal photo_columns (loaded type table))))
      ∙ decode_root-encode_field decimal given (model_field photo_columns) (loaded type table)
          (photo_doc type table) []
          (tt, (tt, ((((λ e. cc), (table-TableHasKeys table, tt)), tt), tt))) refl
          (photo-IsDoc type table type_small small are) tt

  -- `loadphoto_config` of a file whose `table_xx` has these rows of cells, the first load or another
  -- one, returns true, and `json::decode` then reads the body that the photo task sends to its end:
  -- `tablenum` there is the text of the number of cells. The fuel is at least the number of the rows
  -- and of each row's cells; `type`, the cells and the number of them are not negative and below
  -- 2^31; the texts of numbers are not empty, and those of such numbers are digits.
  pub body_of-tablenum :
      {Document_node : Type 0} (doc : Document Document_node)
      (files : Bytes → Option (Document Document_node)) (size type : ℕ) (old_tablenum : ℤ)
      (old : Option (List (List Cell))) (table : List (List Bytes)) (config : Config)
      → files (codes "photo_config.xml") ≡ some doc
      → AreRows doc (first_row doc atoi) table
      → length table ≤ size
      → All (λ (texts : List Bytes). length texts ≤ size) table
      → All (All IsCamtype) table
      → cell_count table < 2 ^ 31
      → type < 2 ^ 31
      → config.photo_config ≡ earlier (pos type) old_tablenum old
      → (config' : Config) × (n : Node) × (child : Node) × (loadphoto_config files atoi size config
          ≡ returned true config')
        × (decode_root (body_of decimal config') ≡ parsed n [])
        × (find_kv_child (codes "tablenum") n ≡ some child)
        × (get_value child ≡ decimal (pos (cell_count table)))
  unfolding find_kv_child to_node photo_doc emplace lookup get_value same_kind less equal
  body_of-tablenum doc files size type old_tablenum old table config loaded_file rows enough fits
        are small type_small was =
      (
        with_table config (cell_count table, map (row_of atoi) table),
        to_node [] (photo_doc type table),
        _,
        loadphoto_config-with_table atoi doc files size table config loaded_file rows enough fits,
        ap (λ (row : Row photo_columns). decode_root (json_encode decimal photo_columns row))
              (with_table-loaded type old_tablenum old table config was)
            ∙ loaded-decoded type table type_small small are,
        refl,
        refl,
      )
