-- ===== src/Queue/Erase.antt =====
-- `Erase` takes away the first equal item and nothing else.
use hzrobot.Prelude.{
  ◌≡◌, ◌≢◌, refl, ap, ◌∙◌, List, [], ◌∷◌, ◌++◌, if_pos, if_neg, ◌⊎◌, inl, inr, sym,
}
use hzrobot.Queue.{Queue, erase, erase_first}

module _ {ℓ} {A : Type ℓ} (d : Discrete A) (item : A) where
  -- No element of the list is the item.
  abbrev pub Lacks : List A → Type ℓ
  Lacks [] = Unit
  Lacks (x ∷ xs) = (item ≢ x) × Lacks xs

  erase_first-Lacks : (xs ys : List A) → Lacks xs → erase_first d item (xs ++ item ∷ ys) ≡ xs ++ ys
  unfolding erase_first
  erase_first-Lacks [] ys h = if_pos (d item item) refl _ _
  erase_first-Lacks (x ∷ xs) ys (h, hs) =
      if_neg (d item x) h _ _ ∙ ap (◌∷◌ x) (erase_first-Lacks xs ys hs)

  erase_first-absent : (xs : List A) → Lacks xs → erase_first d item xs ≡ xs
  unfolding erase_first
  erase_first-absent [] h = refl
  erase_first-absent (x ∷ xs) (h, hs) =
      if_neg (d item x) h _ _ ∙ ap (◌∷◌ x) (erase_first-absent xs hs)

  split :
      (xs : List A) → Lacks xs ⊎ ((front back : List A) × (xs ≡ front ++ item ∷ back) × Lacks front)
  split [] = inl tt
  split (x ∷ xs) = elim (d item x) [
    | yes p ↦ inr ([], xs, ap (λ t. t ∷ xs) (sym p), tt)
    | no p ↦ elim (split xs) [
      | inl h ↦ inl (p, h)
      | inr (front, back, e, h) ↦ inr (x ∷ front, back, ap (◌∷◌ x) e, (p, h))
    ]
  ]

  -- `Erase` of an item that is not queued changes nothing; otherwise it takes away the first
  -- occurrence, keeps what stands before and behind it in order, and wakes or blocks nobody.
  erase_lem :
      (q : Queue A)
      → (Lacks q.items × (erase d item q ≡ q))
        ⊎ ((front back : List A) × (q.items ≡ front ++ item ∷ back)
            × Lacks front
            × (erase d item q ≡ record q { items = front ++ back }))
  unfolding erase
  erase_lem q = elim (split q.items) [
    | inl h ↦ inl (h, ap (λ t. record q { items = t }) (erase_first-absent q.items h))
    | inr (front, back, e, h) ↦ inr (
      front,
      back,
      e,
      h,
      ap (λ t. record q { items = t }) (ap (erase_first d item) e ∙ erase_first-Lacks front back h),
    )
  ]
