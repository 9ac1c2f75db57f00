-- ===== src/Json.antt =====
-- `json_node_t` of Include/util/json.hpp: the nodes of a JSON text and the operations on them.
-- A null pointer to children and an empty container are one value here: no operation tells them
-- apart. Copies share their children in the source; here a copy is a value of its own.
pub mod Decode
pub mod Encode
pub mod Childs
pub mod Strings
pub mod Terminates
pub mod Documents
pub mod Models
use hzrobot.Prelude.{
  ℕ, zero, suc, ◌+◌, Bool, true, false, not, ◌&&◌, ◌||◌, ◌==◌, ltb, if◌then◌else◌, Option, some,
  none, List, [], ◌∷◌, ◌++◌, Bytes, codes, equal,
}

pub data Kind : Type 0 where
  e_string e_integer e_float e_boolean e_null e_object e_array e_root : Kind

mutual
  pub data Node : Type 0 where
    node : (type : Kind) (key value : Bytes) (kv_childs : Members) (array_childs : Items) → Node

  -- The entries of a `std::map`, in its order.
  pub data Members : Type 0 where
    no_members : Members
    member : (key : Bytes) (child : Node) (others : Members) → Members

  pub data Items : Type 0 where
    no_items : Items
    item : (child : Node) (others : Items) → Items

-- A node as it is declared.
abbrev pub new_node : Node
new_node = node e_object [] [] no_members no_items

unfoldable pub get_type : Node → Kind
get_type (node t k v kv arr) = t

unfoldable pub get_key : Node → Bytes
get_key (node t k v kv arr) = k

unfoldable pub get_value : Node → Bytes
get_value (node t k v kv arr) = v

unfoldable pub kv_childs : Node → Members
kv_childs (node t k v kv arr) = kv

unfoldable pub array_childs : Node → Items
array_childs (node t k v kv arr) = arr

unfoldable pub same_kind : Kind → Kind → Bool
same_kind e_string e_string = true
same_kind e_integer e_integer = true
same_kind e_float e_float = true
same_kind e_boolean e_boolean = true
same_kind e_null e_null = true
same_kind e_object e_object = true
same_kind e_array e_array = true
same_kind e_root e_root = true
same_kind _ _ = false

-- `SET_TYPE`: another type drops the children and the value.
unfoldable pub set_type : Kind → Node → Node
unfolding same_kind
set_type t (node t' k v kv arr) =
    if same_kind t' t then node t' k v kv arr else node t k [] no_members no_items

unfoldable pub set_value : Bytes → Node → Node
set_value v (node t k _ kv arr) = node t k v kv arr

unfoldable pub set_null : Node → Node
unfolding set_type set_value
set_null n = set_value (codes "null") (set_type e_null n)

unfoldable pub clear : Node → Node
unfolding set_null
clear n = set_null n

unfoldable pub set_string : Bytes → Node → Node
unfolding set_type set_value
set_string v n = set_value v (set_type e_string n)

unfoldable pub set_boolean : Bool → Node → Node
unfolding set_type set_value
set_boolean b n = set_value (if b then codes "true" else codes "false") (set_type e_boolean n)

-- `operator<` of the keys.
unfoldable pub less : Bytes → Bytes → Bool
less xs [] = false
less [] (y ∷ ys) = true
less (x ∷ xs) (y ∷ ys) = ltb x y || x == y && less xs ys

-- `std::map::emplace`: an entry that is there stays.
unfoldable pub emplace : Bytes → Node → Members → Members
emplace k n no_members = member k n no_members
emplace k n (member k' n' others) =
    let later = emplace k n others in
    if equal k k'
    then member k' n' others
    else if less k k'
    then member k n (member k' n' others)
    else member k' n' later

unfoldable pub lookup : Bytes → Members → Option Node
lookup k no_members = none
lookup k (member k' n others) = let later = lookup k others in if equal k k' then some n else later

unfoldable pub erase_key : Bytes → Members → Members
erase_key k no_members = no_members
erase_key k (member k' n others) =
    let later = erase_key k others in if equal k k' then others else member k' n later

unfoldable pub kv_size : Members → ℕ
kv_size no_members = 0
kv_size (member k n others) = suc (kv_size others)

unfoldable pub array_size : Items → ℕ
array_size no_items = 0
array_size (item n others) = suc (array_size others)

unfoldable pub with_member : Node → Node → Node
with_member (node _ [] _ _ _) n = n
with_member (node t (c ∷ cs) v kv arr) (node t' k' v' kv' arr') =
    node t' k' v' (emplace (c ∷ cs) (node t (c ∷ cs) v kv arr) kv') arr'

unfoldable pub insert_kv_child : Node → Node → Node
unfolding set_type with_member
insert_kv_child child n = with_member child (set_type e_object n)

unfoldable pub set_kv_childs : Members → Node → Node
set_kv_childs kv (node t k v _ arr) = node t k v kv arr

unfoldable pub erase_kv_child : Bytes → Node → Node
unfolding set_type set_kv_childs kv_childs
erase_kv_child key n =
    let n' = set_type e_object n in set_kv_childs (erase_key key (kv_childs n')) n'

-- `none` is the null pointer.
unfoldable pub find_kv_child : Bytes → Node → Option Node
unfolding same_kind
find_kv_child key (node t k v kv arr) = if same_kind t e_object then lookup key kv else none

unfoldable pub clear_kv_childs : Node → Node
unfolding set_type set_kv_childs
clear_kv_childs n = set_kv_childs no_members (set_type e_object n)

unfoldable pub push_back : Node → Items → Items
push_back n no_items = item n no_items
push_back n (item m others) = item m (push_back n others)

unfoldable pub erase_at : ℕ → Items → Items
erase_at i no_items = no_items
erase_at zero (item n others) = others
erase_at (suc i) (item n others) = item n (erase_at i others)

unfoldable pub item_at : ℕ → Items → Option Node
item_at i no_items = none
item_at zero (item n others) = some n
item_at (suc i) (item n others) = item_at i others

unfoldable pub set_array_childs : Items → Node → Node
set_array_childs arr (node t k v kv _) = node t k v kv arr

unfoldable pub push_back_array_child : Node → Node → Node
unfolding set_type set_array_childs array_childs
push_back_array_child child n =
    let n' = set_type e_array n in set_array_childs (push_back child (array_childs n')) n'

unfoldable pub push_front_array_child : Node → Node → Node
unfolding set_type set_array_childs array_childs
push_front_array_child child n =
    let n' = set_type e_array n in set_array_childs (item child (array_childs n')) n'

unfoldable pub erase_array_child : ℕ → Node → Node
unfolding set_type set_array_childs array_childs
erase_array_child index n =
    let n' = set_type e_array n in set_array_childs (erase_at index (array_childs n')) n'

unfoldable pub get_array_child : ℕ → Node → Option Node
unfolding array_childs
get_array_child index n = item_at index (array_childs n)

unfoldable pub clear_array_childs : Node → Node
unfolding set_type set_array_childs
clear_array_childs n = set_array_childs no_items (set_type e_array n)
