-- ===== src/Text/Search.antt =====
-- `find`, `rfind` and `strstr` as the sources use them: the position of the first or the last
-- occurrence of a text.
pub mod Laws
pub mod Chars
use hzrobot.Prelude.{
  ℕ, suc, ◌+◌, Bool, true, false, ◌&&◌, ◌==◌, leb, if◌then◌else◌, Option, some, none, [], ◌∷◌,
  Bytes, drop, length,
}
use mathlib.Core.Option

unfoldable pub starts_with : Bytes → Bytes → Bool
starts_with [] xs = true
starts_with (c ∷ cs) [] = false
starts_with (c ∷ cs) (x ∷ xs) = c == x && starts_with cs xs

-- The first occurrence of `des`, which is at 0 for the empty text.
unfoldable pub find_first : Bytes → Bytes → Option ℕ
find_first des [] = if starts_with des [] then some 0 else none
find_first des (x ∷ xs) =
    let later = Option.map suc (find_first des xs) in
    if starts_with des (x ∷ xs) then some 0 else later

-- `str.find(des, pos)`; `none` is `npos`.
unfoldable pub find : Bytes → Bytes → ℕ → Option ℕ
find str des pos =
    if leb pos (length str) then Option.map (◌+◌ pos) (find_first des (drop pos str)) else none

-- `str.find(des) != npos`
unfoldable pub contains : Bytes → Bytes → Bool
contains des str = elim (find_first des str) [ none ↦ false | some _ ↦ true ]

-- `str.rfind(des)`
unfoldable pub find_last : Bytes → Bytes → Option ℕ
find_last des [] = if starts_with des [] then some 0 else none
find_last des (x ∷ xs) = elim (find_last des xs) [
  | some k ↦ some (suc k)
  | none ↦ if starts_with des (x ∷ xs) then some 0 else none
]
