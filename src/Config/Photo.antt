-- ===== src/Config/Photo.antt =====
-- `loadphoto_config` of Include/robot_config/Header/config.h: the tables that are photographed.
use hzrobot.Prelude.{
  ℤ, pos, ℕ, zero, suc, ◌+◌, true, false, Option, ◌>>=◌, some, none, List, [], ◌∷◌, ◌++◌, Bytes,
  codes,
}
use hzrobot.Json.Models.{Value}
use hzrobot.Config.{Document, Config, put_entry, Loading, returned, crashed, stuck}

-- `std::map<std::string, int>`
abbrev pub Cell : Type 0
Cell = List (Bytes × ℤ)

-- What the loops have: `photo_config.tablenum` and the vector that is filled. Both loops go from
-- sibling to sibling, on fuel; `none` ends them. The number is that of the `int`, below 2^31.
module _ {Node : Type 0} (doc : Document Node) (atoi : Bytes → ℤ) where
  unfoldable pub read_cells : ℕ → Option Node → ℕ → List Cell → Loading (ℕ × List Cell)
  read_cells fuel none tablenum vm_tmp = returned true (tablenum, vm_tmp)
  read_cells zero (some node) tablenum vm_tmp = stuck
  read_cells (suc fuel) (some node) tablenum vm_tmp = elim (doc.get_text node) [
    | none ↦ crashed
    | some text ↦
        read_cells fuel (doc.next_sibling_element node) (tablenum + 1)
          (vm_tmp ++ ((codes "camtype", atoi text) ∷ []) ∷ [])
  ]

  unfoldable pub read_rows :
      (size fuel : ℕ) → Option Node → ℕ → List (List Cell) → Loading (ℕ × List (List Cell))
  read_rows size fuel none tablenum param = returned true (tablenum, param)
  read_rows size zero (some node) tablenum param = stuck
  read_rows size (suc fuel) (some node) tablenum param =
      elim (read_cells size (doc.first_child_element node) tablenum []) [
        | returned ok (tablenum', vm_tmp) ↦
            read_rows size fuel (doc.next_sibling_element node) tablenum' (param ++ vm_tmp ∷ [])
        | crashed ↦ crashed
        | stuck ↦ stuck
      ]

  -- `FirstChild("table_xx").FirstChild().Element()` of the root.
  unfoldable pub first_row : Option Node
  first_row = do
    root ← doc.root_element
    table ← doc.first_child_named root (codes "table_xx")
    child ← doc.first_child table
    doc.to_element child

-- The rows that were read become the entry `row` of `param`.
unfoldable pub with_table : Config → ℕ × List (List Cell) → Config
unfolding Value
with_table config (tablenum, rows) =
    let (type, (old_tablenum, (param, end))) = config.photo_config in
    record config {
      photo_config = (type, (pos tablenum, (put_entry (codes "row") (rows, tt) param, end)));
    }

unfoldable pub finish_photo : Config → Loading (ℕ × List (List Cell)) → Loading Config
finish_photo config (returned ok read) = returned true (with_table config read)
finish_photo config crashed = crashed
finish_photo config stuck = stuck

-- With the fuel for each loop.
unfoldable pub loadphoto_config :
    {Node : Type 0}
    → (files : Bytes → Option (Document Node)) (atoi : Bytes → ℤ) (size : ℕ) → Config
    → Loading Config
loadphoto_config files atoi size config = elim (files (codes "photo_config.xml")) [
  | none ↦ returned false config
  | some doc ↦ finish_photo config (read_rows doc atoi size size (first_row doc atoi) 0 [])
]
