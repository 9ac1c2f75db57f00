-- ===== src/Json/Models/Reading/Entries.antt =====
-- Entries in the order of their keys stay in it when they are put into a map one after another.
use hzrobot.Prelude.{
  Option, some, map, true, false, List, [], ◌∷◌, ◌++◌, Bytes, equal, equal→eq, All, ◌≡◌, ◌∙◌, refl,
  inl, inr, ap, sym, append_assoc, append-nil, Bool-cases,
}
use hzrobot.Json.{Node, Members, no_members, member, emplace, less}
use hzrobot.Json.Childs.{less_irrefl, less_trans}
use hzrobot.Json.Documents.{Doc, to_node, add_fields}
use hzrobot.Json.Encode.{encode_string}
use hzrobot.Json.Models.Docs.{gather_fields}
use hzrobot.Json.Models.Reading.{emplace_value, member_values}

-- A key that is behind another is not the same, and not before it.
behind-equal : (j k : Bytes) → less j k ≡ true → equal k j ≡ false
behind-equal j k h = elim (Bool-cases (equal k j)) [
  | inr e ↦ e
  | inl e ↦ let same = equal→eq k j e in absurd (cc (same, h, less_irrefl j))
]

behind-less : (j k : Bytes) → less j k ≡ true → less k j ≡ false
behind-less j k h = elim (Bool-cases (less k j)) [
  | inr e ↦ e
  | inl e ↦ absurd (cc (less_trans j k j h e, less_irrefl j))
]

-- The key is behind those of the entries.
abbrev pub IsBehind : {A : Type 0} → Bytes → List (Bytes × A) → Type 0
IsBehind k [] = Unit
IsBehind k ((j, v) ∷ entries) = (less j k ≡ true) × IsBehind k entries

emplace_value-IsBehind :
    {A : Type 0} (k : Bytes) (v : A) (entries : List (Bytes × A))
    → IsBehind k entries
    → emplace_value k v entries ≡ entries ++ (k, v) ∷ []
unfolding emplace_value
emplace_value-IsBehind k v [] h = refl
emplace_value-IsBehind k v ((j, u) ∷ entries) (first, h) =
    rw (behind-equal j k first)
      (rw (behind-less j k first) (ap (◌∷◌ (j, u)) (emplace_value-IsBehind k v entries h)))

-- A map with the entries in order.
abbrev pub members_of : List (Bytes × Node) → Members
members_of [] = no_members
members_of ((k, n) ∷ entries) = member k n (members_of entries)

emplace-IsBehind :
    (k : Bytes) (n : Node) (entries : List (Bytes × Node))
    → IsBehind k entries
    → emplace k n (members_of entries) ≡ members_of (entries ++ (k, n) ∷ [])
unfolding emplace
emplace-IsBehind k n [] h = refl
emplace-IsBehind k n ((j, m) ∷ entries) (first, h) =
    rw (behind-equal j k first)
      (rw (behind-less j k first) (ap (member j m) (emplace-IsBehind k n entries h)))

-- The keys of the second list are behind those of the first.
abbrev AreBehind : {A B : Type 0} → List (Bytes × A) → List (Bytes × B) → Type 0
AreBehind entries [] = Unit
AreBehind entries ((k, v) ∷ later) = IsBehind k entries × AreBehind entries later

-- The keys are behind this one.
abbrev pub AreAfter : {A : Type 0} → Bytes → List (Bytes × A) → Type 0
AreAfter k [] = Unit
AreAfter k ((j, v) ∷ entries) = (less k j ≡ true) × AreAfter k entries

abbrev pub AreAscending : {A : Type 0} → List (Bytes × A) → Type 0
AreAscending [] = Unit
AreAscending ((k, v) ∷ entries) = AreAfter k entries × AreAscending entries

IsBehind-append :
    {A : Type 0} (j k : Bytes) (v : A) (entries : List (Bytes × A))
    → IsBehind j entries
    → less k j ≡ true
    → IsBehind j (entries ++ (k, v) ∷ [])
IsBehind-append j k v [] h l = (l, tt)
IsBehind-append j k v ((i, u) ∷ entries) (first, h) l = (first, IsBehind-append j k v entries h l)

AreBehind-append :
    {A B : Type 0} (k : Bytes) (v : A) (entries : List (Bytes × A)) (later : List (Bytes × B))
    → AreBehind entries later
    → AreAfter k later
    → AreBehind (entries ++ (k, v) ∷ []) later
AreBehind-append k v entries [] h a = tt
AreBehind-append k v entries ((j, u) ∷ later) (first, h) (l, a) =
    (IsBehind-append j k v entries first l, AreBehind-append k v entries later h a)

AreBehind-start : (A : Type 0) {B : Type 0} (later : List (Bytes × B)) → AreBehind {A = A} [] later
AreBehind-start A [] = tt
AreBehind-start A ((k, v) ∷ later) = (tt, AreBehind-start A later)

module _ {A : Type 0} (f : Node → A) where
  -- The nodes are read as the values, under the same keys.
  abbrev Reads : List (Bytes × Node) → List (Bytes × A) → Type 0
  Reads [] [] = Unit
  Reads [] ((k, v) ∷ entries) = ⊥
  Reads ((k, n) ∷ nodes) [] = ⊥
  Reads ((k, n) ∷ nodes) ((j, v) ∷ entries) = (k ≡ j) × (f n ≡ v) × Reads nodes entries

  member_values-Reads :
      (nodes : List (Bytes × Node)) (before entries : List (Bytes × A))
      → Reads nodes entries
      → AreBehind before entries
      → AreAscending entries
      → member_values f (members_of nodes) before ≡ before ++ entries
  unfolding member_values
  member_values-Reads [] before [] reads behind ascending = sym (append-nil before)
  member_values-Reads [] before ((k, v) ∷ entries) reads behind ascending = absurd reads
  member_values-Reads ((k, n) ∷ nodes) before [] reads behind ascending = absurd reads
  member_values-Reads ((k, n) ∷ nodes) before ((j, v) ∷ entries) (same, reads_first, reads)
        (behind_first, behind) (after, ascending) =
      rw same (
        rw reads_first (
          rw (emplace_value-IsBehind j v before behind_first) (
            member_values-Reads nodes (before ++ (j, v) ∷ []) entries reads
              (AreBehind-append j v before entries behind after) ascending
            ∙ append_assoc before ((j, v) ∷ []) entries)))

  module _ (g : A → Option Doc) where
    -- An entry stands for a field that is read as it.
    abbrev pub IsRead : Bytes × A → Type 0
    IsRead (k, v) = (d : Doc) × (g v ≡ some d) × (encode_string k ≡ k) × (f (to_node k d) ≡ v)

    add_fields-Reads :
        (before : List (Bytes × Node)) (entries : List (Bytes × A))
        → All IsRead entries
        → AreBehind before entries
        → AreAscending entries
        → (nodes : List (Bytes × Node)) × (add_fields
              (members_of before)
              (gather_fields (map (λ (e : Bytes × A). (encode_string e.0, g e.1)) entries))
            ≡ members_of (before ++ nodes))
          × Reads nodes entries
    unfolding add_fields gather_fields
    add_fields-Reads before [] read behind ascending =
        ([], ap members_of (sym (append-nil before)), tt)
    add_fields-Reads before ((k, v) ∷ entries) ((d, stands, left, reads), read)
          (behind_first, behind) (after, ascending) =
        let (nodes, added, all) =
          add_fields-Reads (before ++ (k, to_node k d) ∷ []) entries read
            (AreBehind-append k (to_node k d) before entries behind after) ascending in
        (
          (k, to_node k d) ∷ nodes,
          rw stands (
              rw left (
                rw (emplace-IsBehind k (to_node k d) before behind_first)
                  (added ∙ ap members_of (append_assoc before ((k, to_node k d) ∷ []) nodes)))),
          (refl, reads, all),
        )

    -- Entries that are read one by one are read together.
    pub member_values-entries :
        (entries : List (Bytes × A))
        → All IsRead entries
        → AreAscending entries
        → member_values f
            (add_fields no_members
              (gather_fields (map (λ (e : Bytes × A). (encode_string e.0, g e.1)) entries)))
            []
          ≡ entries
    member_values-entries entries read ascending =
        let (nodes, added, all) =
          add_fields-Reads [] entries read (AreBehind-start Node entries) ascending in
        ap (λ (kv : Members). member_values f kv []) added
        ∙ member_values-Reads nodes [] entries all (AreBehind-start A entries) ascending
