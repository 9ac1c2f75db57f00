-- ===== src/Database/Result.antt =====
-- `db_result` of Include/common/db.hpp, and `mysql_result::parse` of Include/mysql/mysql.hpp.
use hzrobot.Prelude.{
  ℕ, zero, suc, Bool, true, false, if◌then◌else◌, Option, some, none, List, [], ◌∷◌, ◌++◌, map,
  Bytes, get_elem?, equal, equal→eq, ◌≡◌, refl, ◌∙◌, ap, sym, inl, inr, Bool-cases, Option-cases,
}
use mathlib.Core.Option

-- The map of the names is the list of its pairs.
pub record DbResult : Type 0 where
  pub columns : List (Bytes × ℕ)
  pub head : List Bytes
  pub rows : List (List Bytes)

unfoldable pub find_column : Bytes → List (Bytes × ℕ) → Option ℕ
find_column name [] = none
find_column name ((other, i) ∷ columns) =
    let later = find_column name columns in if equal name other then some i else later

-- A name that is there keeps its place.
unfoldable pub emplace_column : Bytes → ℕ → List (Bytes × ℕ) → List (Bytes × ℕ)
unfolding find_column
emplace_column name i columns = elim (find_column name columns) [
  | some _ ↦ columns
  | none ↦ columns ++ (name, i) ∷ []
]

unfoldable pub parse_columns : List Bytes → ℕ → List (Bytes × ℕ) → List (Bytes × ℕ)
unfolding emplace_column
parse_columns [] i columns = columns
parse_columns (name ∷ names) i columns = parse_columns names (suc i) (emplace_column name i columns)

-- A cell that is NULL becomes the empty text.
abbrev pub cell : Option Bytes → Bytes
cell none = []
cell (some text) = text

-- With the names of the fields, and all rows that `mysql_fetch_row` gives.
unfoldable pub parse_result : List Bytes → List (List (Option Bytes)) → DbResult
unfolding parse_columns
parse_result fields rows = record {
  columns = parse_columns fields 0 [];
  head = fields;
  rows = map (map cell) rows;
}

unfoldable pub has_column : Bytes → DbResult → Bool
unfolding find_column
has_column name result = elim (find_column name result.columns) [ none ↦ false | some _ ↦ true ]

-- `get` by the number of the column; `none` is a null pointer.
unfoldable pub get_at : ℕ → ℕ → DbResult → Option Bytes
get_at row_num column_num result =
    Option.bind (get_elem? result.rows row_num) (λ (row : List Bytes). get_elem? row column_num)

-- `get` by the name of the column.
unfoldable pub get_named : ℕ → Bytes → DbResult → Option Bytes
unfolding get_at find_column
get_named row_num column_name result =
    Option.bind (find_column column_name result.columns) (λ (i : ℕ). get_at row_num i result)

-- The first place of a name.
abbrev pub place : Bytes → List Bytes → ℕ → Option ℕ
place name [] i = none
place name (other ∷ names) i =
    let later = place name names (suc i) in if equal name other then some i else later

abbrev or_else : Option ℕ → Option ℕ → Option ℕ
or_else none o = o
or_else (some i) o = some i

or_else_if :
    (b : Bool) (i : ℕ) (o p : Option ℕ)
    → (if b then some i else or_else o p) ≡ or_else (if b then some i else o) p
or_else_if true i o p = refl
or_else_if false i o p = refl

find_column-append :
    (name : Bytes) (xs ys : List (Bytes × ℕ))
    → find_column name (xs ++ ys) ≡ or_else (find_column name xs) (find_column name ys)
unfolding find_column
find_column-append name [] ys = refl
find_column-append name ((other, i) ∷ xs) ys =
    rw (find_column-append name xs ys)
      (or_else_if (equal name other) i (find_column name xs) (find_column name ys))

or_else-none : (o : Option ℕ) → or_else o none ≡ o
or_else-none none = refl
or_else-none (some i) = refl

find_column-emplace :
    (name other : Bytes) (i : ℕ) (columns : List (Bytes × ℕ))
    → find_column name (emplace_column other i columns)
      ≡ or_else (find_column name columns) (if equal name other then some i else none)
unfolding emplace_column
find_column-emplace name other i columns = elim (Option-cases (find_column other columns)) [
  | inl absent ↦
      rw (absent, emplace_column)
        (find_column-append name columns ((other, i) ∷ []) ∙ unfold find_column in refl)
  | inr (k, there) ↦ elim (Bool-cases (equal name other)) [
    | inr differs ↦
        rw (there, emplace_column) (rw differs (sym (or_else-none (find_column name columns))))
    | inl same ↦
        let found : find_column name columns ≡ some k =
          ap (λ n. find_column n columns) (equal→eq name other same) ∙ there in
        rw (there, emplace_column) (rw found refl)
  ]
]

or_else_assoc : (a b c : Option ℕ) → or_else (or_else a b) c ≡ or_else a (or_else b c)
or_else_assoc none b c = refl
or_else_assoc (some i) b c = refl

find_column-parse :
    (name : Bytes) (names : List Bytes) (i : ℕ) (columns : List (Bytes × ℕ))
    → find_column name (parse_columns names i columns)
      ≡ or_else (find_column name columns) (place name names i)
unfolding parse_columns
find_column-parse name [] i columns = sym (or_else-none (find_column name columns))
find_column-parse name (other ∷ names) i columns =
    find_column-parse name names (suc i) (emplace_column other i columns)
    ∙ ap (λ o. or_else o (place name names (suc i))) (find_column-emplace name other i columns)
    ∙ or_else_assoc (find_column name columns) (if equal name other then some i else none)
        (place name names (suc i))
    ∙ ap (or_else (find_column name columns))
        (sym (or_else_if (equal name other) i none (place name names (suc i))))

module _ {A : Type 0} {B : Type 0} (f : A → B) where
  get_elem?-map : (xs : List A) (i : ℕ) → get_elem? (map f xs) i ≡ Option.map f (get_elem? xs i)
  get_elem?-map [] i = refl
  get_elem?-map (x ∷ xs) zero = refl
  get_elem?-map (x ∷ xs) (suc i) = get_elem?-map xs i

cell_of :
    (row : Option (List (Option Bytes))) (i : ℕ)
    → Option.bind (Option.map (map cell) row) (λ (cells : List Bytes). get_elem? cells i)
      ≡ Option.bind row (λ (cells : List (Option Bytes)). Option.map cell (get_elem? cells i))
unfolding Option.bind
cell_of none i = refl
cell_of (some row) i = get_elem?-map cell row i

cell_named :
    (rows : List (List (Option Bytes))) (row_num : ℕ) (found : Option ℕ)
    → Option.bind found (λ (i : ℕ).
      Option.bind (get_elem? (map (map cell) rows) row_num) (λ (row : List Bytes). get_elem? row i))
      ≡ Option.bind found (λ (i : ℕ).
        Option.bind
          (get_elem? rows row_num)
          (λ (row : List (Option Bytes)). Option.map cell (get_elem? row i)))
unfolding Option.bind
cell_named rows row_num none = refl
cell_named rows row_num (some i) =
    ap (λ (row : Option (List Bytes)). Option.bind row (λ (cells : List Bytes). get_elem? cells i))
      (get_elem?-map (map cell) rows row_num)
    ∙ cell_of (get_elem? rows row_num) i

-- After a selection was read, a column's name gives the cell at the first place of the name among
-- the fields, for every row; a name that is no field's, and a row or a cell that is not there, give
-- nothing.
pub get_named-parse_result :
    (fields : List Bytes) (rows : List (List (Option Bytes))) (row_num : ℕ) (name : Bytes)
    → get_named row_num name (parse_result fields rows)
      ≡ Option.bind (place name fields 0) (λ (i : ℕ).
        Option.bind
          (get_elem? rows row_num)
          (λ (row : List (Option Bytes)). Option.map cell (get_elem? row i)))
unfolding get_named get_at parse_result
get_named-parse_result fields rows row_num name =
    ap
      (λ (found : Option ℕ). Option.bind found (λ (i : ℕ).
        Option.bind (get_elem? (map (map cell) rows) row_num)
          (λ (row : List Bytes). get_elem? row i)))
      (find_column-parse name fields 0 [])
    ∙ cell_named rows row_num (place name fields 0)
