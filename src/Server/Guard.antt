-- ===== src/Server/Guard.antt =====
-- The two guards of `handle_request`: what they let through.
use hzrobot.Prelude.{
  ℕ, true, false, [], ◌∷◌, Bytes, codes, ◌≡◌, ◌↔◌, ◌⊎◌, inl, inr, arith, Bool-cases,
}
use hzrobot.Text.Search.{contains}
use hzrobot.Text.Search.Laws.{IsAt, contains_iff}
use hzrobot.Server.Reply.{bad_request, path_cat}
use hzrobot.Server.{
  Verb, post, get, head, Request, Env, responds, is_known, is_illegal, route, handle_request,
}

-- The methods that the server handles.
abbrev pub IsKnown : Verb → Type 0
IsKnown v = (v ≡ post) ⊎ ((v ≡ get) ⊎ (v ≡ head))

-- An absolute path in which neither `..` nor `//` stands anywhere.
abbrev pub IsLegal : Bytes → Type 0
IsLegal target =
    ((rest : Bytes) × (target ≡ b'/' ∷ rest))
    × ((k : ℕ) → ¬ (IsAt (codes "..") target k))
    × ((k : ℕ) → ¬ (IsAt (codes "//") target k))

pub is_known_iff : (v : Verb) → (is_known v ≡ true) ↔ IsKnown v
unfolding is_known
is_known_iff v = (ground arith, ground arith)

not_contains : (des xs : Bytes) → (contains des xs ≡ false) ↔ ((k : ℕ) → ¬ (IsAt des xs k))
not_contains des xs = (
  λ h k at. absurd (cc (h, (contains_iff des xs).1 (k, at))),
  λ h. elim (Bool-cases (contains des xs)) [
    | inl e ↦ let (k, at) = (contains_iff des xs).0 e in absurd (h k at)
    | inr e ↦ e
  ],
)

IsLegal-iff : (target : Bytes) → (is_illegal target ≡ false) ↔ IsLegal target
unfolding is_illegal
IsLegal-iff [] = (λ h. absurd (ground arith), λ h. let e = h.0.1 in absurd (cc e))
IsLegal-iff (c ∷ cs) = (
  λ h. (
    (cs, ground arith),
    (not_contains (codes "..") (c ∷ cs)).0 (ground arith),
    (not_contains (codes "//") (c ∷ cs)).0 (ground arith),
  ),
  λ h.
      let dots = (not_contains (codes "..") (c ∷ cs)).1 h.1 in
      let slashes = (not_contains (codes "//") (c ∷ cs)).1 h.2 in let slash = h.0.1 in ground arith,
)

-- A request reaches the routes exactly if its method is POST, GET or HEAD and its target is
-- absolute and holds neither `..` nor `//`. Any other gets the answer 400 and has no effect.
pub handle_request_guard :
    (env : Env) (req : Request)
    → (IsKnown req.verb
        × IsLegal req.target
        × (handle_request env req ≡ route env req (path_cat env.doc_root req.target)))
      ⊎ ((¬ (IsKnown req.verb × IsLegal req.target))
          × ((why : Bytes) × (handle_request env req ≡ responds [] (bad_request why))))
unfolding handle_request
handle_request_guard env req = elim (Bool-cases (is_known req.verb)) [
  | inr unknown ↦ inr (
    λ h. absurd (cc (unknown, (is_known_iff req.verb).1 h.0)),
    (codes "Unknown HTTP-method", rw unknown),
  )
  | inl known ↦ elim (Bool-cases (is_illegal req.target)) [
    | inl illegal ↦ inr (
      λ h. absurd (cc (illegal, (IsLegal-iff req.target).1 h.1)),
      (codes "Illegal request-target", rw (known, illegal)),
    )
    | inr legal ↦
        inl ((is_known_iff req.verb).0 known, (IsLegal-iff req.target).0 legal, rw (known, legal))
  ]
]
