-- ===== src/Text/Edit/Laws.antt =====
-- `split` and `replace_all` of Include/util/string.hpp.
use hzrobot.Prelude.{
  ℕ, zero, suc, ◌+◌, ◌<◌, false, Option, some, none, List, [], ◌∷◌, ◌++◌, Bytes, All, length, take,
  drop, length-append, take-append, drop-append, append_assoc, ◌≡◌, ◌≢◌, inl, inr, refl, sym, ◌∙◌,
  ap, ap₂, subst, arith, Bool-cases, Option-cases,
}
use mathlib.Core.Option
use hzrobot.Text.Search.{find_first, contains}
use hzrobot.Text.Search.Laws.{find_first-IsAt, find_first-le, contains_iff}
use hzrobot.Text.Edit.{add_piece, split_loop, split, prefix_result, replace_loop, replace_all}

-- The pieces with the separator between them.
abbrev pub join : Bytes → List Bytes → Bytes
join des [] = []
join des (piece ∷ []) = piece
join des (piece ∷ next ∷ rest) = piece ++ (des ++ join des (next ∷ rest))

-- The pieces of a text: joined they are the text, and none holds the separator.
abbrev pub ArePieces : Bytes → Bytes → List Bytes → Type 0
ArePieces des str pieces =
    (pieces ≢ []) × (join des pieces ≡ str) × All (λ p. contains des p ≡ false) pieces

contains-none : (des str : Bytes) → find_first des str ≡ none → contains des str ≡ false
unfolding contains
contains-none des str h = rw (h, contains)

-- What stands before the first occurrence does not hold the text.
contains-before :
    (des front back : Bytes)
    → 0 < length des
    → find_first des (front ++ (des ++ back)) ≡ some (length front)
    → contains des front ≡ false
contains-before des front back some_des h = elim (Bool-cases (contains des front)) [
  | inr e ↦ e
  | inl e ↦
      let (k, (a, b, cut, at)) = (contains_iff des front).0 e in
      let (j, found, le) = find_first-le des a (b ++ (des ++ back)) in
      let whole : front ++ (des ++ back) ≡ a ++ (des ++ (b ++ (des ++ back))) =
        ap (λ t. t ++ (des ++ back)) cut ∙ simp append_assoc in
      let same : some j ≡ some (length front) = sym found ∙ ap (find_first des) (sym whole) ∙ h in
      let long : length front ≡ length a + (length des + length b) =
        ap length cut ∙ length-append a (des ++ b) ∙ ap (◌+◌ (length a)) (length-append des b) in
      absurd (ground arith)
]

join-cons :
    (des piece : Bytes) (rest : List Bytes)
    → rest ≢ []
    → join des (piece ∷ rest) ≡ piece ++ (des ++ join des rest)
join-cons des piece [] h = absurd (h refl)
join-cons des piece (next ∷ rest) h = refl

drop-two : (xs ys zs : Bytes) → drop (length xs + length ys) (xs ++ (ys ++ zs)) ≡ zs
drop-two xs ys zs =
    ap₂ drop (sym (length-append xs ys)) (sym (append_assoc xs ys zs)) ∙ drop-append (xs ++ ys) zs

abbrev Splits : Bytes → ℕ → Bytes → Type 0
Splits des fuel str =
    (pieces : List Bytes) × (split_loop fuel des str ≡ some pieces) × ArePieces des str pieces

split_loop-cut :
    (des front back : Bytes) (fuel : ℕ)
    → 0 < length des
    → find_first des (front ++ (des ++ back)) ≡ some (length front)
    → Splits des fuel back
    → Splits des (suc fuel) (front ++ (des ++ back))
unfolding split_loop add_piece
split_loop-cut des front back fuel some_des e (pieces, rest, (filled, joined, clean)) = (
  front ∷ pieces,
  rw (e, split_loop, drop-two front des back, rest, take-append front (des ++ back)),
  (
    (λ bad. absurd cc),
    join-cons des front pieces filled ∙ ap (λ t. front ++ (des ++ t)) joined,
    (contains-before des front back some_des e, clean),
  ),
)

split_loop-lem :
    (des : Bytes) (fuel : ℕ) (str : Bytes)
    → 0 < length des
    → length str < fuel
    → Splits des fuel str
unfolding split_loop
split_loop-lem des zero str some_des h = absurd (omega arith)
split_loop-lem des (suc fuel) str some_des h = elim (Option-cases (find_first des str)) [
  | inl e ↦ (str ∷ [], rw (e, split_loop), (λ bad. absurd cc, refl, (contains-none des str e, tt)))
  | inr (end, e) ↦
      let (front, back, whole, at) = find_first-IsAt des str end e in
      let found : find_first des (front ++ (des ++ back)) ≡ some (length front) =
        ap (find_first des) (sym whole) ∙ e ∙ ap some (sym at) in
      let long = length-append front (des ++ back) in
      let long' = length-append des back in
      let total = ap length whole in
      subst (Splits des (suc fuel)) (sym whole) (
        split_loop-cut des front back fuel some_des found
          (split_loop-lem des fuel back some_des (omega (arith, long, long', total))))
]

-- For a separator that is not empty, splitting ends; the pieces joined by the separator are the
-- text, and no piece holds the separator.
pub split_lem :
    (str des : Bytes)
    → 0 < length des
    → (pieces : List Bytes) × (split str des ≡ some pieces) × ArePieces des str pieces
unfolding split
split_lem str des some_des = split_loop-lem des (suc (length str)) str some_des (omega arith)

prefix-join :
    (des piece : Bytes) (o : Option (List Bytes))
    → ((pieces : List Bytes) → o ≡ some pieces → pieces ≢ [])
    → prefix_result (piece ++ des) (Option.map (join des) o)
      ≡ Option.map (join des) (add_piece piece o)
unfolding prefix_result add_piece
prefix-join des piece none filled = refl
prefix-join des piece (some pieces) filled = ap some (
    append_assoc piece des (join des pieces)
    ∙ sym (join-cons des piece pieces (filled pieces refl)))

add_piece-filled :
    (piece : Bytes) (o : Option (List Bytes)) (pieces : List Bytes)
    → add_piece piece o ≡ some pieces
    → pieces ≢ []
unfolding add_piece
add_piece-filled piece none pieces h bad = absurd cc
add_piece-filled piece (some rest) pieces h bad = absurd cc

split_loop-filled :
    (fuel : ℕ) (des str : Bytes) (pieces : List Bytes)
    → split_loop fuel des str ≡ some pieces
    → pieces ≢ []
unfolding split_loop
split_loop-filled zero des str pieces h bad = absurd cc
split_loop-filled (suc fuel) des str pieces h bad = elim (Option-cases (find_first des str)) [
  | inl e ↦
      let now : split_loop (suc fuel) des str ≡ some (str ∷ []) = rw (e, split_loop) in absurd cc
  | inr (end, e) ↦
      let rest = split_loop fuel des (drop (end + length des) str) in
      let now : split_loop (suc fuel) des str ≡ add_piece (take end str) rest =
        rw (e, split_loop) in
      add_piece-filled (take end str) rest pieces (sym now ∙ h) bad
]

replace_loop-split_loop :
    (fuel : ℕ) (src des str : Bytes)
    → replace_loop fuel src des str ≡ Option.map (join des) (split_loop fuel src str)
unfolding replace_loop split_loop
replace_loop-split_loop zero src des str = refl
replace_loop-split_loop (suc fuel) src des str = elim (Option-cases (find_first src str)) [
  | inl e ↦ rw (e, replace_loop, split_loop)
  | inr (end, e) ↦
      let rest = drop (end + length src) str in
      rw (e, replace_loop, split_loop)
        (ap (prefix_result (take end str ++ des)) (replace_loop-split_loop fuel src des rest)
          ∙ prefix-join des (take end str) (split_loop fuel src rest)
              (split_loop-filled fuel src rest))
]

-- Replacing every occurrence is joining the pieces between the occurrences by the replacement;
-- where one of the two does not end, the other does not.
pub replace_all-split :
    (str src des : Bytes) → replace_all str src des ≡ Option.map (join des) (split str src)
unfolding replace_all split
replace_all-split str src des = replace_loop-split_loop (suc (length str)) src des str
