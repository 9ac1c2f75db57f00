-- ===== src/Serial/Speeds.antt =====
-- The search of `SerialSetSpeed` of Include/com/Source/linux_serial.cpp.
use hzrobot.Prelude.{
  ℕ, suc, ◌≤◌, Bool, true, leb, leb→le, le→leb, and_left, and_right, ◌&&◌, some, List, [], ◌∷◌,
  get_elem?, drop, ◌≡◌, refl, inl, inr, arith, Bool-cases, All,
}
use hzrobot.Serial.Settings.{speed_table, pick_speed}

-- Every entry is at least the one before it, the first at least the bound.
abbrev IsAscending : ℕ → List ℕ → Type 0
IsAscending low [] = Unit
IsAscending low (x ∷ xs) = (low ≤ x) × IsAscending x xs

abbrev ascends : ℕ → List ℕ → Bool
ascends low [] = true
ascends low (x ∷ xs) = leb low x && ascends x xs

ascends-IsAscending : (low : ℕ) (xs : List ℕ) → ascends low xs ≡ true → IsAscending low xs
ascends-IsAscending low [] h = tt
ascends-IsAscending low (x ∷ xs) h =
    (leb→le low x (and_left _ _ h), ascends-IsAscending x xs (and_right (leb low x) _ h))

IsAscending-All :
    (bound low : ℕ) (xs : List ℕ) → bound ≤ low → IsAscending low xs → All (λ x. bound ≤ x) xs
IsAscending-All bound low [] below h = tt
IsAscending-All bound low (x ∷ xs) below (first, rest) =
    let here : bound ≤ x = omega (arith, below, first) in
    (here, IsAscending-All bound x xs here rest)

abbrev top : ℕ → List ℕ → ℕ
top x [] = x
top x (y ∷ ys) = top y ys

-- The smallest entry of the table that is at least the speed.
abbrev pub IsLeast : ℕ → ℕ → List ℕ → Type 0
IsLeast speed s table =
    (speed ≤ s) × ((i : ℕ) × (get_elem? table i ≡ some s)) × All (λ x. speed ≤ x → s ≤ x) table

All-weaken :
    {A : Type 0} (P Q : A → Type 0) (xs : List A) → ((x : A) → P x → Q x) → All P xs → All Q xs
All-weaken P Q [] f h = tt
All-weaken P Q (x ∷ xs) f (p, h) = (f x p, All-weaken P Q xs f h)

pick_first :
    (speed x : ℕ) (xs : List ℕ) → IsAscending x xs → leb speed x ≡ true → IsLeast speed x (x ∷ xs)
pick_first speed x xs ascending p = (
  leb→le _ _ p,
  (0, refl),
  (
    (λ h. omega arith),
    All-weaken (λ y. x ≤ y) (λ y. speed ≤ y → x ≤ y) xs (λ y h below. h)
        (IsAscending-All x x xs (omega arith) ascending),
  ),
)

pick_speed-IsLeast :
    (speed x : ℕ) (xs : List ℕ)
    → IsAscending x xs
    → speed ≤ top x xs
    → (s : ℕ) × (pick_speed (x ∷ xs) speed ≡ some s) × IsLeast speed s (x ∷ xs)
unfolding pick_speed
pick_speed-IsLeast speed x [] ascending reaches =
    rw (le→leb _ _ reaches) (x, refl, pick_first speed x [] ascending (le→leb _ _ reaches))
pick_speed-IsLeast speed x (y ∷ ys) (first, rest) reaches = elim (Bool-cases (leb speed x)) [
  | inl p ↦ rw p (x, refl, pick_first speed x (y ∷ ys) (first, rest) p)
  | inr p ↦
      let (s, picked, (enough, (i, found), least)) = pick_speed-IsLeast speed y ys rest reaches in
      rw p (s, picked, (enough, (suc i, found), ((λ h. ground (arith, p, h)), least)))
]

-- The search of `SerialSetSpeed` ends at the smallest speed that is at least the one asked for.
pub speed_table-IsLeast :
    (speed : ℕ)
    → speed ≤ 921600
    → (s : ℕ) × (pick_speed speed_table speed ≡ some s) × IsLeast speed s speed_table
speed_table-IsLeast speed low =
    pick_speed-IsLeast speed 50 (drop 1 speed_table)
      (ascends-IsAscending 50 (drop 1 speed_table) refl) low
