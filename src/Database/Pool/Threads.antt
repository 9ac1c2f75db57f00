-- ===== src/Database/Pool/Threads.antt =====
-- Each thread has its own connection from the pool of Include/mysql/mysql.hpp.
use hzrobot.Prelude.{
  ℕ, ◌+◌, ◌<◌, ◌==◌, Option, some, none, List, [], ◌∷◌, ◌++◌, Bytes, length, length-append, ◌≡◌,
  ◌≢◌, ◌⊎◌, ◌∙◌, inl, inr, refl, sym, ap, subst, arith, Bool-cases,
}
use hzrobot.Database.{ConnectInfo, Library}
use hzrobot.Database.Pool.{Pool, find_thread, make, get_for, get_conn, get_all}

find_thread-kept :
    (t u object i : ℕ) (entries : List (ℕ × ℕ))
    → find_thread t entries ≡ some i
    → find_thread t (entries ++ (u, object) ∷ []) ≡ some i
unfolding find_thread
find_thread-kept t u object i [] h = cc
find_thread-kept t u object i ((v, x) ∷ entries) h = elim (Bool-cases (t == v)) [
  | inl e ↦ rw e (sym (rw e refl) ∙ h)
  | inr e ↦ rw e (find_thread-kept t u object i entries (sym (rw e refl) ∙ h))
]

find_thread-last :
    (t object : ℕ) (entries : List (ℕ × ℕ))
    → find_thread t entries ≡ none
    → find_thread t (entries ++ (t, object) ∷ []) ≡ some object
unfolding find_thread
find_thread-last t object [] h = ground arith
find_thread-last t object ((v, x) ∷ entries) h = elim (Bool-cases (t == v)) [
  | inl e ↦
      let found : find_thread t ((v, x) ∷ entries) ≡ some x = rw e refl in
      let impossible : some x ≡ none = sym found ∙ h in cc
  | inr e ↦ rw e (find_thread-last t object entries (sym (rw e refl) ∙ h))
]

-- What is found behind a new entry was there or is the new one.
find_thread-cases :
    (t u object i : ℕ) (entries : List (ℕ × ℕ))
    → find_thread t (entries ++ (u, object) ∷ []) ≡ some i
    → (find_thread t entries ≡ some i) ⊎ ((t ≡ u) × (i ≡ object))
unfolding find_thread
find_thread-cases t u object i [] h = ground arith
find_thread-cases t u object i ((v, x) ∷ entries) h = elim (Bool-cases (t == v)) [
  | inl e ↦ rw e (inl (sym (rw e refl) ∙ h))
  | inr e ↦ rw e (find_thread-cases t u object i entries (sym (rw e refl) ∙ h))
]

-- The objects' numbers are below the next, and no two threads have the same.
abbrev pub HasOwners : List (ℕ × ℕ) → ℕ → Type 0
HasOwners entries next =
    ((t i : ℕ) → find_thread t entries ≡ some i → i < next)
    × ((t u i : ℕ) → find_thread t entries ≡ some i → find_thread u entries ≡ some i → t ≡ u)

HasOwners-append :
    (thread next : ℕ) (entries : List (ℕ × ℕ))
    → HasOwners entries next
    → HasOwners (entries ++ (thread, next) ∷ []) (next + 1)
HasOwners-append thread next entries (below, own) = (
  (λ t i h. elim (find_thread-cases t thread next i entries h) [
    | inl old ↦ let lt = below t i old in omega arith
    | inr (_, e) ↦ omega (arith, e)
  ]),
  (λ t u i h k. elim (find_thread-cases t thread next i entries h) [
    | inl old ↦ elim (find_thread-cases u thread next i entries k) [
      | inl old' ↦ own t u i old old'
      | inr (_, e) ↦ let lt = below t i old in absurd (omega (arith, e, lt))
    ]
    | inr (is_t, e) ↦ elim (find_thread-cases u thread next i entries k) [
      | inl old' ↦ let lt = below u i old' in absurd (omega (arith, e, lt))
      | inr (is_u, _) ↦ is_t ∙ sym is_u
    ]
  ]),
)

module _ {World : Type 0} (lib : Library World) (atoi : Bytes → ℕ) (info : ConnectInfo) where
  abbrev got : ℕ → Pool World → ℕ × Pool World
  got = get_conn lib atoi info

  -- Each thread's object is its own.
  abbrev pub HasOwn : Pool World → Type 0
  HasOwn p = HasOwners p.entries (length p.conns)

  get_for-HasOwn :
      (found : Option ℕ) (thread : ℕ) (p : Pool World)
      → HasOwn p
      → HasOwn (get_for lib atoi info found thread p).1
  unfolding get_for make
  get_for-HasOwn (some object) thread p own = own
  get_for-HasOwn none thread p own =
      subst (HasOwners (p.entries ++ (thread, length p.conns) ∷ []))
        (sym (length-append p.conns (_ ∷ [])))
        (HasOwners-append thread (length p.conns) p.entries own)

  get_for-kept :
      (found : Option ℕ) (t u i : ℕ) (p : Pool World)
      → find_thread t p.entries ≡ some i
      → find_thread t (get_for lib atoi info found u p).1.entries ≡ some i
  unfolding get_for make
  get_for-kept (some object) t u i p h = h
  get_for-kept none t u i p h = find_thread-kept t u (length p.conns) i p.entries h

  get_for-finds :
      (found : Option ℕ) (t : ℕ) (p : Pool World)
      → find_thread t p.entries ≡ found
      → find_thread t (get_for lib atoi info found t p).1.entries
        ≡ some (get_for lib atoi info found t p).0
  unfolding get_for make
  get_for-finds (some object) t p h = h
  get_for-finds none t p h = find_thread-last t (length p.conns) p.entries h

  get_all-kept :
      (threads : List ℕ) (t i : ℕ) (p : Pool World)
      → find_thread t p.entries ≡ some i
      → find_thread t (get_all lib atoi info threads p).entries ≡ some i
  unfolding get_all get_conn
  get_all-kept [] t i p h = h
  get_all-kept (u ∷ threads) t i p h =
      get_all-kept threads t i _ (get_for-kept (find_thread u p.entries) t u i p h)

  get_all-HasOwn :
      (threads : List ℕ) (p : Pool World) → HasOwn p → HasOwn (get_all lib atoi info threads p)
  unfolding get_all get_conn
  get_all-HasOwn [] p own = own
  get_all-HasOwn (u ∷ threads) p own =
      get_all-HasOwn threads _ (get_for-HasOwn (find_thread u p.entries) u p own)

  get_conn-same : (t i : ℕ) (p : Pool World) → find_thread t p.entries ≡ some i → got t p ≡ (i, p)
  unfolding get_conn get_for
  get_conn-same t i p h = rw (h, get_conn) refl

  -- After a thread got an object from the pool and any threads called `get`, it gets the same object
  -- again and nothing else happens, and another thread gets another object, if each thread's object
  -- was its own at the start.
  pub get_conn-own :
      (t u : ℕ) (threads : List ℕ) (p : Pool World)
      → HasOwn p
      → (got t (get_all lib atoi info threads (got t p).1)
          ≡ ((got t p).0, get_all lib atoi info threads (got t p).1))
        × (t ≢ u → (got u (get_all lib atoi info threads (got t p).1)).0 ≢ (got t p).0)
  unfolding get_conn
  get_conn-own t u threads p own =
      let found = find_thread t p.entries in
      let first = get_for lib atoi info found t p in
      let p' = get_all lib atoi info threads first.1 in
      let has = get_all-kept threads t first.0 first.1 (get_for-finds found t p refl) in
      let last = get_for lib atoi info (find_thread u p'.entries) u p' in
      let own' =
        get_for-HasOwn (find_thread u p'.entries) u p'
          (get_all-HasOwn threads first.1 (get_for-HasOwn found t p own)) in
      (
        get_conn-same t first.0 p' has,
        (λ differ same. differ (
            own'.1 t u first.0 (get_for-kept (find_thread u p'.entries) t u first.0 p' has)
              (get_for-finds (find_thread u p'.entries) u p' refl ∙ ap some same))),
      )
