-- ===== src/Text/Search/Chars.antt =====
-- Searches for one character.
use hzrobot.Prelude.{
  ℕ, suc, true, false, ◌==◌, leb, some, none, [], ◌∷◌, ◌++◌, All, Bytes, drop, length, ◌≡◌, ◌≢◌,
  refl, ap, arith,
}
use hzrobot.Text.Search.{starts_with, find_first, find}

-- The character does not stand in the text.
abbrev pub Lacks : ℕ → Bytes → Type 0
Lacks c = All (λ x. x ≢ c)

differs : (a b : ℕ) → b ≢ a → (a == b) ≡ false
differs a b h = ground arith

pub leb_zero : (n : ℕ) → leb 0 n ≡ true
leb_zero n = ground arith

find_first-at :
    (c : ℕ) (xs ys : Bytes) → Lacks c xs → find_first (c ∷ []) (xs ++ c ∷ ys) ≡ some (length xs)
unfolding find_first starts_with
find_first-at c [] ys h = let same : (c == c) ≡ true = ground arith in rw same refl
find_first-at c (x ∷ xs) ys h =
    let other : (c == x) ≡ false = differs c x h.0 in rw (other, find_first-at c xs ys h.1) refl

find_first-none : (c : ℕ) (xs : Bytes) → Lacks c xs → find_first (c ∷ []) xs ≡ none
unfolding find_first starts_with
find_first-none c [] h = refl
find_first-none c (x ∷ xs) h =
    let other : (c == x) ≡ false = differs c x h.0 in rw (other, find_first-none c xs h.1) refl

pub find-at :
    (c : ℕ) (xs ys : Bytes) → Lacks c xs → find (xs ++ c ∷ ys) (c ∷ []) 0 ≡ some (length xs)
unfolding find
find-at c xs ys h =
    rw (leb_zero (length (xs ++ c ∷ ys))) (rw (find_first-at c xs ys h) (ap some (omega arith)))

pub find-none : (c : ℕ) (xs : Bytes) → Lacks c xs → find xs (c ∷ []) 0 ≡ none
unfolding find
find-none c xs h = rw (leb_zero (length xs)) (rw (find_first-none c xs h) refl)

pub drop-at : (xs ys : Bytes) (c : ℕ) → drop (suc (length xs)) (xs ++ c ∷ ys) ≡ ys
drop-at [] ys c = refl
drop-at (x ∷ xs) ys c = drop-at xs ys c
