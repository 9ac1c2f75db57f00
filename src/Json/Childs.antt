-- ===== src/Json/Childs.antt =====
-- What the operations on the children of a node in Include/util/json.hpp promise.
use hzrobot.Prelude.{
  true, false, Option, some, none, [], ◌∷◌, Bytes, equal, equal→eq, equal_self, ◌≡◌, ◌≢◌, inl, inr,
  refl, ◌∙◌, ap, sym, subst, arith, Bool-cases,
}
use hzrobot.Json.{
  Kind, e_object, Node, node, Members, no_members, member, less, emplace, lookup, erase_key,
  same_kind, set_type, get_key, get_type, kv_childs, with_member, insert_kv_child, set_kv_childs,
  erase_kv_child, find_kv_child,
}

pub less_irrefl : (xs : Bytes) → less xs xs ≡ false
unfolding less
less_irrefl [] = refl
less_irrefl (x ∷ xs) = ground (arith, less_irrefl xs)

pub less_trans : (xs ys zs : Bytes) → less xs ys ≡ true → less ys zs ≡ true → less xs zs ≡ true
unfolding less
less_trans xs ys [] h k = absurd (ground arith)
less_trans xs [] (z ∷ zs) h k = absurd (ground arith)
less_trans [] (y ∷ ys) (z ∷ zs) h k = refl
less_trans (x ∷ xs) (y ∷ ys) (z ∷ zs) h k = ground (arith, less_trans xs ys zs)

less_total : (xs ys : Bytes) → equal xs ys ≡ false → less xs ys ≡ false → less ys xs ≡ true
unfolding less equal
less_total [] [] h k = absurd (ground arith)
less_total (x ∷ xs) [] h k = refl
less_total [] (y ∷ ys) h k = absurd (ground arith)
less_total (x ∷ xs) (y ∷ ys) h k = ground (arith, less_total xs ys)

-- The key is below all keys of the entries.
abbrev pub IsBelow : Bytes → Members → Type 0
IsBelow k no_members = Unit
IsBelow k (member k' n others) = (less k k' ≡ true) × IsBelow k others

-- The keys are in the order of the map, so they differ.
abbrev pub IsOrdered : Members → Type 0
IsOrdered no_members = Unit
IsOrdered (member k n others) = IsBelow k others × IsOrdered others

IsBelow-trans : (k k' : Bytes) (kv : Members) → less k k' ≡ true → IsBelow k' kv → IsBelow k kv
IsBelow-trans k k' no_members h b = tt
IsBelow-trans k k' (member j n others) h b =
    (less_trans k k' j h b.0, IsBelow-trans k k' others h b.1)

lookup-IsBelow : (k : Bytes) (kv : Members) → IsBelow k kv → lookup k kv ≡ none
unfolding lookup
lookup-IsBelow k no_members b = refl
lookup-IsBelow k (member j n others) b = elim (Bool-cases (equal k j)) [
  | inr e ↦ (rw e) ∙ lookup-IsBelow k others b.1
  | inl e ↦ let same = equal→eq k j e in absurd (cc (same, b.0, less_irrefl j))
]

emplace-IsBelow :
    (j k : Bytes) (n : Node) (kv : Members)
    → less j k ≡ true
    → IsBelow j kv
    → IsBelow j (emplace k n kv)
unfolding emplace
emplace-IsBelow j k n no_members h b = (h, tt)
emplace-IsBelow j k n (member i m others) h b = elim (Bool-cases (equal k i)) [
  | inl e ↦ rw e b
  | inr e ↦ elim (Bool-cases (less k i)) [
    | inl l ↦ rw (e, l) (h, b)
    | inr l ↦ rw (e, l) (b.0, emplace-IsBelow j k n others h b.1)
  ]
]

-- An order of the keys is kept by `emplace`.
pub emplace-IsOrdered :
    (k : Bytes) (n : Node) (kv : Members) → IsOrdered kv → IsOrdered (emplace k n kv)
unfolding emplace
emplace-IsOrdered k n no_members o = (tt, tt)
emplace-IsOrdered k n (member i m others) o = elim (Bool-cases (equal k i)) [
  | inl e ↦ rw e o
  | inr e ↦ elim (Bool-cases (less k i)) [
    | inl l ↦ rw (e, l) ((l, IsBelow-trans k i others l o.0), o)
    | inr l ↦
        rw (e, l)
          (emplace-IsBelow i k n others (less_total k i e l) o.0, emplace-IsOrdered k n others o.1)
  ]
]

-- The entry that is there, or the one given.
abbrev pub or_new : Option Node → Node → Option Node
or_new none n = some n
or_new (some old) n = some old

pub lookup-emplace_same :
    (k : Bytes) (n : Node) (kv : Members)
    → IsOrdered kv
    → lookup k (emplace k n kv) ≡ or_new (lookup k kv) n
unfolding emplace lookup
lookup-emplace_same k n no_members o = rw (equal_self k)
lookup-emplace_same k n (member i m others) o = elim (Bool-cases (equal k i)) [
  | inl e ↦ rw (e, e)
  | inr e ↦ elim (Bool-cases (less k i)) [
    | inl l ↦ rw (e, l, equal_self k, lookup-IsBelow k others (IsBelow-trans k i others l o.0))
    | inr l ↦ rw (e, l, e, lookup-emplace_same k n others o.1)
  ]
]

pub lookup-emplace_other :
    (j k : Bytes) (n : Node) (kv : Members)
    → equal j k ≡ false
    → lookup j (emplace k n kv) ≡ lookup j kv
unfolding emplace lookup
lookup-emplace_other j k n no_members d = rw d
lookup-emplace_other j k n (member i m others) d = elim (Bool-cases (equal k i)) [
  | inl e ↦ rw e
  | inr e ↦ elim (Bool-cases (less k i)) [
    | inl l ↦ rw (e, l, d)
    | inr l ↦ rw (e, l, lookup-emplace_other j k n others d)
  ]
]

erase_key-IsBelow : (j k : Bytes) (kv : Members) → IsBelow j kv → IsBelow j (erase_key k kv)
unfolding erase_key
erase_key-IsBelow j k no_members b = tt
erase_key-IsBelow j k (member i m others) b = elim (Bool-cases (equal k i)) [
  | inl e ↦ rw e b.1
  | inr e ↦ rw e (b.0, erase_key-IsBelow j k others b.1)
]

pub erase_key-IsOrdered : (k : Bytes) (kv : Members) → IsOrdered kv → IsOrdered (erase_key k kv)
unfolding erase_key
erase_key-IsOrdered k no_members o = tt
erase_key-IsOrdered k (member i m others) o = elim (Bool-cases (equal k i)) [
  | inl e ↦ rw e o.1
  | inr e ↦ rw e (erase_key-IsBelow i k others o.0, erase_key-IsOrdered k others o.1)
]

lookup-erase_key : (k : Bytes) (kv : Members) → IsOrdered kv → lookup k (erase_key k kv) ≡ none
unfolding erase_key lookup
lookup-erase_key k no_members o = refl
lookup-erase_key k (member i m others) o = elim (Bool-cases (equal k i)) [
  | inl e ↦
      let same = equal→eq k i e in
      (rw e) ∙ lookup-IsBelow k others (subst (λ x. IsBelow x others) (sym same) o.0)
  | inr e ↦ rw (e, e, lookup-erase_key k others o.1)
]

lookup-erase_other :
    (j k : Bytes) (kv : Members) → equal j k ≡ false → lookup j (erase_key k kv) ≡ lookup j kv
unfolding erase_key lookup
lookup-erase_other j k no_members d = refl
lookup-erase_other j k (member i m others) d = elim (Bool-cases (equal k i)) [
  | inr e ↦ rw (e, lookup-erase_other j k others d)
  | inl e ↦ let same = equal→eq k i e in let d' : equal j i ≡ false = cc in rw (e, d')
]

-- The children of a node are in the order of their keys.
abbrev pub HasOrder : Node → Type 0
HasOrder (node t k v kv arr) = IsOrdered kv

set_type-HasOrder : (t : Kind) (n : Node) → HasOrder n → HasOrder (set_type t n)
unfolding set_type
set_type-HasOrder t (node t' k v kv arr) o = elim (Bool-cases (same_kind t' t)) [
  | inl e ↦ rw e o
  | inr e ↦ rw e tt
]

find-set_type : (k : Bytes) (n : Node) → find_kv_child k (set_type e_object n) ≡ find_kv_child k n
unfolding find_kv_child set_type lookup
find-set_type k (node t key v kv arr) = elim (Bool-cases (same_kind t e_object)) [
  | inl e ↦ rw (e, e)
  | inr e ↦ rw e
]

type_set_type : (n : Node) → same_kind (get_type (set_type e_object n)) e_object ≡ true
unfolding set_type get_type same_kind
type_set_type (node t key v kv arr) = elim (Bool-cases (same_kind t e_object)) [
  | inl e ↦ rw e e
  | inr e ↦ rw e refl
]

-- What inserting or erasing a child means for the lookups.
abbrev pub Inserted : Node → Node → Node → Type 0
Inserted child n n' =
    (find_kv_child (get_key child) n' ≡ or_new (find_kv_child (get_key child) n) child)
    × ((k : Bytes) → equal k (get_key child) ≡ false → find_kv_child k n' ≡ find_kv_child k n)
    × HasOrder n'

with_member-Inserted :
    (child n : Node)
    → get_key child ≢ []
    → same_kind (get_type n) e_object ≡ true
    → HasOrder n
    → Inserted child n (with_member child n)
unfolding with_member find_kv_child get_key get_type
with_member-Inserted (node t [] v kv arr) n keyed is o = absurd (keyed refl)
with_member-Inserted (node t (c ∷ cs) v kv arr) (node t' k' v' kv' arr') keyed is o =
    let child = node t (c ∷ cs) v kv arr in
    (
      rw is (lookup-emplace_same (c ∷ cs) child kv' o),
      λ k d. rw is (lookup-emplace_other k (c ∷ cs) child kv' d),
      emplace-IsOrdered (c ∷ cs) child kv' o,
    )

-- A child with a key that a node has not yet is found under its key afterwards, a child that is
-- there stays, the other keys find what they found before, and the keys stay in order. A node of
-- another type is one without children.
insert_kv_child_lem :
    (child n : Node) → get_key child ≢ [] → HasOrder n → Inserted child n (insert_kv_child child n)
unfolding insert_kv_child
insert_kv_child_lem child n keyed o =
    let m = set_type e_object n in
    let h = with_member-Inserted child m keyed (type_set_type n) (set_type-HasOrder e_object n o) in
    (
      h.0 ∙ ap (λ r. or_new r child) (find-set_type (get_key child) n),
      λ k d. h.1 k d ∙ find-set_type k n,
      h.2,
    )

abbrev Erased : Bytes → Node → Node → Type 0
Erased key n n' =
    (find_kv_child key n' ≡ none)
    × ((k : Bytes) → equal k key ≡ false → find_kv_child k n' ≡ find_kv_child k n)
    × HasOrder n'

erase_key-Erased :
    (key : Bytes) (n : Node)
    → same_kind (get_type n) e_object ≡ true
    → HasOrder n
    → Erased key n (set_kv_childs (erase_key key (kv_childs n)) n)
unfolding set_kv_childs kv_childs find_kv_child get_type
erase_key-Erased key (node t k v kv arr) is o = (
  rw is (lookup-erase_key key kv o),
  λ j d. rw is (lookup-erase_other j key kv d),
  erase_key-IsOrdered key kv o,
)

-- An erased key finds nothing, the other keys find what they found before, and the keys stay in
-- order.
erase_kv_child_lem : (key : Bytes) (n : Node) → HasOrder n → Erased key n (erase_kv_child key n)
unfolding erase_kv_child
erase_kv_child_lem key n o =
    let m = set_type e_object n in
    let h = erase_key-Erased key m (type_set_type n) (set_type-HasOrder e_object n o) in
    (h.0, λ k d. h.1 k d ∙ find-set_type k n, h.2)
