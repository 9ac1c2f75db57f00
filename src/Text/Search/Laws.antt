-- ===== src/Text/Search/Laws.antt =====
-- What the positions of occurrences mean.
use hzrobot.Prelude.{
  ℕ, suc, ◌+◌, ◌≤◌, true, some, [], ◌∷◌, ◌++◌, Bytes, drop, length, ◌≡◌, refl, ap, subst, ◌↔◌, ◌∙◌,
  inl, inr, arith, Bool-cases, Option-cases, append_assoc,
}
use hzrobot.Text.Search.{starts_with, find_first, contains, find_last}

starts_with-append : (des rest : Bytes) → starts_with des (des ++ rest) ≡ true
unfolding starts_with
starts_with-append [] rest = refl
starts_with-append (c ∷ cs) rest = ground (arith, starts_with-append cs rest)

starts_with-eq : (des xs : Bytes) → starts_with des xs ≡ true → xs ≡ des ++ drop (length des) xs
unfolding starts_with
starts_with-eq [] xs h = refl
starts_with-eq (c ∷ cs) [] h = cc
starts_with-eq (c ∷ cs) (x ∷ xs) h = ground (arith, starts_with-eq cs xs)

-- `des` stands at position `k` of `xs`.
abbrev pub IsAt : Bytes → Bytes → ℕ → Type 0
IsAt des xs k = (front back : Bytes) × (xs ≡ front ++ (des ++ back)) × (length front ≡ k)

IsAt-cons : (des xs : Bytes) (x k : ℕ) → IsAt des xs k → IsAt des (x ∷ xs) (suc k)
IsAt-cons des xs x k (front, back, e, n) = (x ∷ front, back, ap (◌∷◌ x) e, ap suc n)

pub find_first-IsAt : (des xs : Bytes) (k : ℕ) → find_first des xs ≡ some k → IsAt des xs k
unfolding find_first
find_first-IsAt des [] k h = elim (Bool-cases (starts_with des [])) [
  | inl e ↦ ([], drop (length des) [], starts_with-eq des [] e, ground arith)
  | inr e ↦ absurd (ground arith)
]
find_first-IsAt des (x ∷ xs) k h = elim (Bool-cases (starts_with des (x ∷ xs))) [
  | inl e ↦ ([], drop (length des) (x ∷ xs), starts_with-eq des (x ∷ xs) e, ground arith)
  | inr e ↦ elim (Option-cases (find_first des xs)) [
    | inl f ↦ absurd (ground arith)
    | inr (j, f) ↦
        let here : suc j ≡ k = ground arith in
        subst (IsAt des (x ∷ xs)) here (IsAt-cons des xs x j (find_first-IsAt des xs j f))
  ]
]

find_first-start : (des xs : Bytes) → starts_with des xs ≡ true → find_first des xs ≡ some 0
unfolding find_first
find_first-start des [] h = rw h
find_first-start des (x ∷ xs) h = rw h

-- The first occurrence is no later than any other.
pub find_first-le :
    (des front back : Bytes)
    → (k : ℕ) × (find_first des (front ++ (des ++ back)) ≡ some k) × (k ≤ length front)
unfolding find_first
find_first-le des [] back = (0, find_first-start des _ (starts_with-append des back), omega arith)
find_first-le des (x ∷ front) back =
    elim (Bool-cases (starts_with des (x ∷ (front ++ (des ++ back))))) [
      | inl e ↦ (0, rw e, omega arith)
      | inr e ↦ let (k, f, le) = find_first-le des front back in (suc k, rw (e, f), omega arith)
    ]

-- A text is found exactly if it stands somewhere.
pub contains_iff : (des xs : Bytes) → (contains des xs ≡ true) ↔ ((k : ℕ) × IsAt des xs k)
unfolding contains
contains_iff des xs = (to, from)
  where
    to : contains des xs ≡ true → (k : ℕ) × IsAt des xs k
    to h = elim (Option-cases (find_first des xs)) [
      | inl e ↦ absurd (ground arith)
      | inr (k, e) ↦ (k, find_first-IsAt des xs k e)
    ]

    from : ((k : ℕ) × IsAt des xs k) → contains des xs ≡ true
    from (k, (front, back, e, n)) =
        let (j, f, le) = find_first-le des front back in
        let g : find_first des xs ≡ some j = ap (find_first des) e ∙ f in rw (g, contains)

-- What a part of a text contains, the text contains.
pub contains-append :
    (des front xs back : Bytes)
    → contains des xs ≡ true
    → contains des (front ++ (xs ++ back)) ≡ true
contains-append des front xs back h =
    let (k, (before, behind, e, n)) = (contains_iff des xs).0 h in
    (contains_iff des (front ++ (xs ++ back))).1 (
      length (front ++ before),
      (front ++ before, behind ++ back, ap (λ t. front ++ (t ++ back)) e ∙ simp append_assoc, refl),
    )

-- The last occurrence in a text is the last in what stands before it and the text.
pub find_last-append :
    (des front xs : Bytes) (k : ℕ)
    → find_last des xs ≡ some k
    → find_last des (front ++ xs) ≡ some (length front + k)
unfolding find_last
find_last-append des [] xs k h = h ∙ ap some (omega arith)
find_last-append des (x ∷ front) xs k h =
    rw (find_last-append des front xs k h) (ap some (omega arith))
