-- ===== src/Config/Table.antt =====
-- What `loadphoto_config` of Include/robot_config/Header/config.h makes of a file: its rows and cells.
use hzrobot.Prelude.{
  ℤ, pos, false, inl, inr, refl, equal, equal→eq, equal_self, Bool-cases, ℕ, zero, suc, ◌+◌, ◌≤◌,
  true, if◌then◌else◌, Option, some, none, List, [], ◌∷◌, ◌++◌, map, Bytes, codes, length, All,
  append_assoc, append-nil, ◌≡◌, ◌∙◌, ap, ap₂, sym, arith,
}
use hzrobot.Json.{less}
use hzrobot.Json.Models.{Value}
use hzrobot.Config.{Document, Config, put_entry, returned}
use hzrobot.Config.Photo.{
  Cell, read_cells, read_rows, first_row, with_table, finish_photo, loadphoto_config,
}

module _ {Node : Type 0} (doc : Document Node) where
  -- The elements from one on, by their siblings, have these texts.
  pub data AreCells : Option Node → List Bytes → Type 0 where
    no_cells : AreCells none []
    next_cell :
        (node : Node) (text : Bytes) (texts : List Bytes)
        → doc.get_text node ≡ some text
        → AreCells (doc.next_sibling_element node) texts
        → AreCells (some node) (text ∷ texts)

  -- The elements from one on have these texts in their children.
  pub data AreRows : Option Node → List (List Bytes) → Type 0 where
    no_rows : AreRows none []
    next_row :
        (node : Node) (texts : List Bytes) (table : List (List Bytes))
        → AreCells (doc.first_child_element node) texts
        → AreRows (doc.next_sibling_element node) table
        → AreRows (some node) (texts ∷ table)

-- The first entry under a key.
unfoldable pub entry {ℓ} : {A : Type ℓ} → Bytes → List (Bytes × A) → Option A
entry k [] = none
entry k ((k', v) ∷ entries) = if equal k k' then some v else entry k entries

entry-put_entry_same {ℓ} :
    {A : Type ℓ} (k : Bytes) (v : A) (entries : List (Bytes × A))
    → entry k (put_entry k v entries) ≡ some v
unfolding entry put_entry
entry-put_entry_same k v [] = rw (equal_self k) refl
entry-put_entry_same k v ((k', v') ∷ entries) = elim (Bool-cases (equal k k')) [
  | inl same ↦ rw (same, equal_self k) refl
  | inr differs ↦ elim (Bool-cases (less k k')) [
    | inl before ↦ rw (differs, before, equal_self k) refl
    | inr after ↦ rw (differs, after, differs) (entry-put_entry_same k v entries)
  ]
]

entry-put_entry_other {ℓ} :
    {A : Type ℓ} (j k : Bytes) (v : A) (entries : List (Bytes × A))
    → equal j k ≡ false
    → entry j (put_entry k v entries) ≡ entry j entries
unfolding entry put_entry
entry-put_entry_other j k v [] other = rw other refl
entry-put_entry_other {A = A} j k v ((k', v') ∷ entries) other = elim (Bool-cases (equal k k')) [
  | inl same ↦
      let not_there : equal j k' ≡ false = ap (equal j) (sym (equal→eq k k' same)) ∙ other in
      rw (same, other, not_there) refl
  | inr differs ↦ elim (Bool-cases (less k k')) [
    | inl before ↦ rw (differs, before, other) refl
    | inr after ↦
        rw (differs, after)
          (ap (λ (rest : Option A). if equal j k' then some v' else rest)
            (entry-put_entry_other j k v entries other))
  ]
]

-- `photo_config.type` and `photo_config.tablenum`.
unfoldable pub type_of : Config → ℤ
unfolding Value
type_of config = config.photo_config.0

unfoldable pub tablenum_of : Config → ℤ
unfolding Value
tablenum_of config = config.photo_config.1.0

-- The rows under a key of `photo_config.param`.
abbrev rows_in : Option (List (List Cell) × Unit {0}) → Option (List (List Cell))
rows_in none = none
rows_in (some (rows, end)) = some rows

unfoldable pub rows_at : Bytes → Config → Option (List (List Cell))
unfolding Value
rows_at key config = rows_in (entry key config.photo_config.1.1.0)

-- The number of the cells.
abbrev pub cell_count : List (List Bytes) → ℕ
cell_count [] = 0
cell_count (texts ∷ table) = length texts + cell_count table

module _ (atoi : Bytes → ℤ) where
  abbrev pub cell_of : Bytes → Cell
  cell_of text = (codes "camtype", atoi text) ∷ []

  abbrev pub row_of : List Bytes → List Cell
  row_of = map cell_of

  module _ {Node : Type 0} (doc : Document Node) where
    read_cells-returned :
        (fuel : ℕ) (start : Option Node) (texts : List Bytes) (n : ℕ) (vm_tmp : List Cell)
        → AreCells doc start texts
        → length texts ≤ fuel
        → read_cells doc atoi fuel start n vm_tmp
          ≡ returned true (n + length texts, vm_tmp ++ row_of texts)
    unfolding read_cells
    read_cells-returned fuel _ _ n vm_tmp no_cells enough =
        let count : n ≡ n + 0 = omega arith in
        ap₂ (λ (a : ℕ) (b : List Cell). returned true (a, b)) count (sym (append-nil vm_tmp))
    read_cells-returned zero _ _ n vm_tmp (next_cell node text texts reads cells) enough =
        absurd (omega (arith, enough))
    read_cells-returned (suc fuel) _ _ n vm_tmp (next_cell node text texts reads cells) enough =
        let count : (n + 1) + length texts ≡ n + length (text ∷ texts) = omega arith in
        rw (reads, read_cells)
          (read_cells-returned fuel _ texts (n + 1) (vm_tmp ++ cell_of text ∷ []) cells
              (omega (arith, enough))
            ∙ ap₂ (λ (a : ℕ) (b : List Cell). returned true (a, b)) count
                (append_assoc vm_tmp (cell_of text ∷ []) (row_of texts)))

    read_rows-returned :
        (size fuel : ℕ) (start : Option Node) (table : List (List Bytes)) (n : ℕ)
        (param : List (List Cell))
        → AreRows doc start table
        → length table ≤ fuel
        → All (λ (texts : List Bytes). length texts ≤ size) table
        → read_rows doc atoi size fuel start n param
          ≡ returned true (n + cell_count table, param ++ map row_of table)
    unfolding read_rows
    read_rows-returned size fuel _ _ n param no_rows enough fits =
        let count : n ≡ n + 0 = omega arith in
        ap₂ (λ (a : ℕ) (b : List (List Cell)). returned true (a, b)) count (sym (append-nil param))
    read_rows-returned size zero _ _ n param (next_row node texts table cells rows) enough fits =
        absurd (omega (arith, enough))
    read_rows-returned size (suc fuel) _ _ n param (next_row node texts table cells rows) enough
          (short, fits) =
        let count : (n + length texts) + cell_count table ≡ n + cell_count (texts ∷ table) =
          omega arith in
        rw (read_cells-returned size _ texts n [] cells short, read_rows)
          (read_rows-returned size fuel _ table (n + length texts) (param ++ row_of texts ∷ []) rows
              (omega (arith, enough)) fits
            ∙ ap₂ (λ (a : ℕ) (b : List (List Cell)). returned true (a, b)) count
                (append_assoc param (row_of texts ∷ []) (map row_of table)))

    pub loadphoto_config-with_table :
        (files : Bytes → Option (Document Node)) (size : ℕ) (table : List (List Bytes))
        (config : Config)
        → files (codes "photo_config.xml") ≡ some doc
        → AreRows doc (first_row doc atoi) table
        → length table ≤ size
        → All (λ (texts : List Bytes). length texts ≤ size) table
        → loadphoto_config files atoi size config
          ≡ returned true (with_table config (cell_count table, map row_of table))
    unfolding loadphoto_config finish_photo
    loadphoto_config-with_table files size table config loads rows enough fits =
        let no_offset : 0 + cell_count table ≡ cell_count table = omega arith in
        rw (loads, loadphoto_config)
          (ap (finish_photo config) (
            read_rows-returned size size (first_row doc atoi) table 0 [] rows enough fits
            ∙ ap (λ (a : ℕ). returned true (a, map row_of table)) no_offset))

    -- A file whose `table_xx` has these rows of cells is loaded: `tablenum` is then the number of all
    -- cells, the entry `row` of `param` has the rows in order, in each a map for each cell that has
    -- its number as `camtype`, the entry of another key, `type` and the rest of the configuration are
    -- as they were, where the fuel is at least the number of the rows and of each row's cells.
    pub loadphoto_config-returned :
        (files : Bytes → Option (Document Node)) (size : ℕ) (table : List (List Bytes))
        (config : Config) (key : Bytes)
        → files (codes "photo_config.xml") ≡ some doc
        → AreRows doc (first_row doc atoi) table
        → length table ≤ size
        → All (λ (texts : List Bytes). length texts ≤ size) table
        → equal key (codes "row") ≡ false
        → (config' : Config) × (loadphoto_config files atoi size config ≡ returned true config')
          × (tablenum_of config' ≡ pos (cell_count table))
          × (rows_at (codes "row") config' ≡ some (map row_of table))
          × (rows_at key config' ≡ rows_at key config)
          × (type_of config' ≡ type_of config)
          × (config'.sql_config ≡ config.sql_config)
          × (config'.ser_config ≡ config.ser_config)
          × (config'.c_robot_ip ≡ config.c_robot_ip)
    unfolding with_table tablenum_of rows_at type_of Value
    loadphoto_config-returned files size table config key loads rows enough fits other =
        let param = config.photo_config.1.1.0 in
        (
          with_table config (cell_count table, map row_of table),
          loadphoto_config-with_table files size table config loads rows enough fits,
          refl,
          ap rows_in (entry-put_entry_same (codes "row") (map row_of table, tt) param),
          ap rows_in (entry-put_entry_other key (codes "row") (map row_of table, tt) param other),
          refl,
          refl,
          refl,
          refl,
        )
