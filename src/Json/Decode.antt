-- ===== src/Json/Decode.antt =====
-- `json_node_t::decode` and its parts, of Include/util/json.hpp. The text is read from the left,
-- so a position is the bytes from it on.
use hzrobot.Prelude.{
  ℕ, zero, suc, Bool, true, false, not, ◌&&◌, ◌||◌, ◌==◌, leb, if◌then◌else◌, Option, some, none,
  [], ◌∷◌, Bytes, codes, length, drop,
}
use mathlib.Core.Option
use hzrobot.Text.Search.{starts_with, find_first, find_last}
use hzrobot.Json.{
  Kind, e_string, e_integer, e_float, e_boolean, e_null, e_object, e_array, Node, node, new_node,
  no_members, no_items, emplace, push_back,
}

pub data Parsed : Type 0 where
  -- `true`, with the node and the position behind it.
  parsed : Node → Bytes → Parsed
  -- `false`, with what the node holds then.
  rejected : Node → Parsed
  -- `std::out_of_range` from `at`.
  thrown : Parsed
  -- The model's fuel is used up.
  stuck : Parsed

pub data DecodeStep : Type 0 where
  e_decode_key e_decode_type : DecodeStep

abbrev pub is_blank : ℕ → Bool
is_blank c = c == b'\r' || c == b'\n' || c == b'\t' || c == b' '

-- The source's `false` is the empty list here: the end of the text.
unfoldable pub skip_space : Bytes → Bytes
skip_space [] = []
skip_space (c ∷ cs) = let rest = skip_space cs in if is_blank c then rest else c ∷ cs

abbrev pub is_number : ℕ → Bool
is_number c = leb b'0' c && leb c b'9' || c == b'.' || c == b'-'

-- The characters that are skipped, and the rest.
unfoldable pub skip_number : Bytes → Bytes × Bytes
skip_number [] = ([], [])
skip_number (c ∷ cs) =
    let more = skip_number cs in if is_number c then (c ∷ more.0, more.1) else ([], c ∷ cs)

-- What stands before the character, and what from it on.
unfoldable pub find_char : ℕ → Bytes → Option (Bytes × Bytes)
find_char ch [] = none
find_char ch (c ∷ cs) =
    let later = Option.map (λ r. (c ∷ r.0, r.1)) (find_char ch cs) in
    if c == ch then some ([], c ∷ cs) else later

unfoldable pub is_none_or_zero : Option ℕ → Bool
is_none_or_zero none = true
is_none_or_zero (some zero) = true
is_none_or_zero (some (suc k)) = false

unfoldable pub same_position : Option ℕ → Option ℕ → Bool
same_position none none = true
same_position (some a) (some b) = a == b
same_position _ _ = false

unfoldable pub ends_in_dot : Bytes → Bool
ends_in_dot [] = false
ends_in_dot (c ∷ []) = c == b'.'
ends_in_dot (c ∷ d ∷ cs) = ends_in_dot (d ∷ cs)

-- The test that refuses a number, negated.
unfoldable pub is_good_number : Bytes → Bool
unfolding is_none_or_zero same_position ends_in_dot
is_good_number value =
    same_position (find_first (codes ".") value) (find_last (codes ".") value)
    && not (ends_in_dot value)
    && is_none_or_zero (find_first (codes "-") value)
    && not (starts_with (codes "-.") value)

unfoldable pub number_kind : Bytes → Kind
number_kind value = elim (find_first (codes ".") value) [ none ↦ e_integer | some _ ↦ e_float ]

unfoldable pub number_at : Node → Bytes → Bytes → Parsed
number_at n value [] = rejected n
number_at (node t k v kv arr) value (c ∷ rest) =
    if is_good_number value
    then parsed (node (number_kind value) k value kv arr) (c ∷ rest)
    else rejected (node t k value kv arr)

-- The text begins with the first character of the number.
unfoldable pub parse_number : Node → Bytes → Parsed
unfolding number_at
parse_number n [] = rejected n
parse_number n (c ∷ cs) = let r = skip_number cs in number_at n (c ∷ r.0) r.1

-- Up to the next `ch` that has no backslash before it; the text behind that.
unfoldable pub scan_string : ℕ → ℕ → Bytes → Option (Bytes × Bytes)
scan_string ch before [] = none
scan_string ch before (c ∷ cs) =
    let later = Option.map (λ r. (c ∷ r.0, r.1)) (scan_string ch c cs) in
    if c == ch && not (before == b'\\') then some ([], cs) else later

unfoldable pub string_at : Node → Option (Bytes × Bytes) → Parsed
string_at n none = rejected n
string_at (node t k v kv arr) (some r) = parsed (node e_string k r.0 kv arr) r.1

-- Behind the opening quote `ch`.
unfoldable pub parse_string : Node → ℕ → Bytes → Parsed
parse_string n ch cs = string_at n (scan_string ch ch cs)

unfoldable pub symbol_at : Node → Kind → Bytes → Bytes → Parsed
symbol_at n type symbol [] = rejected n
symbol_at (node t k v kv arr) type symbol (c ∷ rest) =
    if c == b',' || c == b'}'
    then parsed (node type k symbol kv arr) (c ∷ rest)
    else rejected (node t k v kv arr)

unfoldable pub parse_symbol : Node → Kind → Bytes → Bytes → Parsed
unfolding symbol_at
parse_symbol n type symbol text = symbol_at n type symbol (skip_space (drop (length symbol) text))

-- What `parse_object` does with a node that it has decoded.
unfoldable pub attach : Node → Node → Node
attach (node t [] [] no_members no_items) (node t' k' v' kv' arr') = node t' k' v' kv' arr'
attach (node t [] v kv arr) (node t' k' v' kv' arr') =
    node t' k' v' kv' (push_back (node t [] v kv arr) arr')
attach (node t (c ∷ cs) v kv arr) (node t' k' v' kv' arr') =
    node t' k' v' (emplace (c ∷ cs) (node t (c ∷ cs) v kv arr) kv') arr'

-- What parses the children: `parse_object`, on a node, a step and the closing character.
abbrev pub Objects : Type 0
Objects = Node → DecodeStep → ℕ → Bytes → Parsed

unfoldable pub as_kind : Kind → Node → Node
as_kind t (node _ k v kv arr) = node t k v kv arr

abbrev pub is_digit : ℕ → Bool
is_digit c = leb b'0' c && leb c b'9'

-- The value behind a minus sign: `at` throws at the end of the text.
unfoldable pub signed : Node → Bytes → Parsed
signed n [] = thrown
signed n (d ∷ cs) = if is_digit d then parse_number n (b'-' ∷ d ∷ cs) else parsed n (b'-' ∷ d ∷ cs)

-- Nothing that begins a value is an empty node, at the same position.
unfoldable pub decode_value : Objects → Node → Bytes → Parsed
unfolding signed
decode_value objects n [] = rejected n
decode_value objects n (c ∷ cs) =
    if c == b'{'
    then objects (as_kind e_object n) e_decode_key b'}' cs
    else if c == b'['
    then objects (as_kind e_array n) e_decode_type b']' cs
    else if is_digit c
    then parse_number n (c ∷ cs)
    else if c == b'-'
    then signed n cs
    else if c == b'"' || c == b'\''
    then parse_string n c cs
    else if starts_with (codes "true") (c ∷ cs)
    then parse_symbol n e_boolean (codes "true") (c ∷ cs)
    else if starts_with (codes "false") (c ∷ cs)
    then parse_symbol n e_boolean (codes "false") (c ∷ cs)
    else if starts_with (codes "null") (c ∷ cs)
    then parse_symbol n e_null (codes "null") (c ∷ cs)
    else parsed n (c ∷ cs)

unfoldable pub after_colon : Objects → Node → Bytes → Parsed
after_colon objects n [] = rejected n
after_colon objects n (c ∷ cs) =
    if c == b':' then decode_value objects n (skip_space cs) else rejected n

-- The step `e_decode_type`: a node with a key has a colon first.
unfoldable pub decode_type : Objects → Node → Bytes → Parsed
unfolding after_colon
decode_type objects (node t [] v kv arr) text =
    decode_value objects (node t [] v kv arr) (skip_space text)
decode_type objects (node t (c ∷ cs) v kv arr) text =
    after_colon objects (node t (c ∷ cs) v kv arr) (skip_space text)

-- Behind the key.
unfoldable pub keyed_at : Objects → Node → Option (Bytes × Bytes) → Parsed
keyed_at objects n none = rejected n
keyed_at objects (node t k v kv arr) (some r) =
    decode_type objects (node t r.0 v kv arr) (drop 1 r.1)

unfoldable pub key_at : Objects → Node → Bytes → Parsed
key_at objects n [] = rejected n
key_at objects n (c ∷ cs) =
    if c == b'\'' || c == b'"'
    then keyed_at objects n (find_char c cs)
    else if c == b'}'
    then parsed n (c ∷ cs)
    else rejected n

unfoldable pub decode : Objects → DecodeStep → Node → Bytes → Parsed
unfolding key_at
decode objects e_decode_key n text = key_at objects n (skip_space text)
decode objects e_decode_type n text = decode_type objects n text

-- Behind a child: the closing character, or a comma and the next child. The nodes are the one
-- without the child, which is left at the end of the text, and the one with it.
unfoldable pub child_at : (Node → Bytes → Parsed) → Node → Node → ℕ → Bytes → Parsed
child_at next without n symbol [] = rejected without
child_at next without n symbol (c ∷ cs) =
    if c == symbol then parsed n cs else if c == b',' then next n cs else rejected n

unfoldable pub after_child : (Node → Bytes → Parsed) → Node → ℕ → Parsed → Parsed
after_child next n symbol (rejected _) = rejected n
after_child next n symbol thrown = thrown
after_child next n symbol stuck = stuck
after_child next n symbol (parsed child text) =
    child_at next n (attach child n) symbol (skip_space text)

-- The loop over the children; a round reads at least the comma, so the length of the text is
-- enough fuel.
unfoldable pub parse_object : ℕ → Node → DecodeStep → ℕ → Bytes → Parsed
parse_object zero n step symbol text = stuck
parse_object (suc fuel) n step symbol text =
    after_child (λ n' cs. parse_object fuel n' step symbol cs) n symbol
      (decode (parse_object fuel) step new_node text)

-- `json::decode` on a new root.
unfoldable pub decode_root : Bytes → Parsed
decode_root text = decode (parse_object (suc (length text))) e_decode_type new_node text
