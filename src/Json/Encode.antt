-- ===== src/Json/Encode.antt =====
-- `json_node_t::encode` and `json::format` of Include/util/json.hpp.
use hzrobot.Prelude.{
  ℕ, zero, suc, ◌+◌, Bool, true, false, ◌==◌, if◌then◌else◌, [], ◌∷◌, ◌++◌, Bytes, codes,
}
use hzrobot.Json.{
  e_string, e_object, e_array, e_root, Node, node, Members, no_members, member, Items, no_items,
  item,
}

-- The `switch` on a character.
unfoldable pub encode_char : ℕ → Bytes
encode_char c =
    if c == b'\\'
    then codes "\\\\"
    else if c == b'"'
    then codes "\\\""
    else if c == 8
    then codes "\\b"
    else if c == 12
    then codes "\\f"
    else if c == b'\t'
    then codes "\\t"
    else if c == b'\n'
    then codes "\\n"
    else if c == b'\r'
    then codes "\\r"
    else c ∷ []

unfoldable pub encode_string : Bytes → Bytes
encode_string [] = []
encode_string (c ∷ cs) = encode_char c ++ encode_string cs

unfoldable pub encode_key : Bytes → Bytes
encode_key [] = []
encode_key (c ∷ cs) = codes "\"" ++ (encode_string (c ∷ cs) ++ codes "\":")

comma : Bool → Bytes
comma true = codes ","
comma false = []

-- The flag says that a child was written before.
unfoldable mutual
  unfolding comma

  pub encode : Node → Bytes
  encode (node e_string k v kv arr) = encode_key k ++ (b'"' ∷ encode_string v ++ codes "\"")
  encode (node e_object k v kv arr) = encode_key k ++ (b'{' ∷ encode_members false kv ++ codes "}")
  encode (node e_array k v kv arr) = encode_key k ++ (b'[' ∷ encode_items false arr ++ codes "]")
  encode (node _ k v kv arr) = encode_key k ++ v

  pub encode_members : Bool → Members → Bytes
  encode_members flag no_members = []
  encode_members flag (member k n others) = comma flag ++ (encode n ++ encode_members true others)

  pub encode_items : Bool → Items → Bytes
  encode_items flag no_items = []
  encode_items flag (item n others) = comma flag ++ (encode n ++ encode_items true others)

-- `json::encode`: the root loses its key.
unfoldable pub encode_root : Node → Bytes
unfolding encode
encode_root (node t k v kv arr) = encode (node t [] v kv arr)

unfoldable pub spaces : ℕ → Bytes
spaces zero = []
spaces (suc n) = b' ' ∷ spaces n

-- What stands before a node: the end of the line before, the indent and the key.
unfoldable pub lead : Bool → ℕ → Bytes → Bytes
unfolding spaces
lead true indent [] = spaces indent
lead true indent (c ∷ cs) = spaces indent ++ (b'"' ∷ (c ∷ cs) ++ codes "\": ")
lead false indent [] = codes ",\n" ++ spaces indent
lead false indent (c ∷ cs) = codes ",\n" ++ (spaces indent ++ (b'"' ∷ (c ∷ cs) ++ codes "\": "))

unfoldable mutual
  unfolding lead spaces

  pub format : Bool → ℕ → Node → Bytes
  format first indent (node e_string k v kv arr) = lead first indent k ++ (b'"' ∷ v ++ codes "\"")
  format first indent (node e_object k v kv arr) =
      lead first indent k
      ++ (codes "{\n"
          ++ (format_members true (indent + 4) kv ++ (b'\n' ∷ spaces indent ++ codes "}")))
  format first indent (node e_array k v kv arr) =
      lead first indent k
      ++ (codes "[\n"
          ++ (format_items true (indent + 4) arr ++ (b'\n' ∷ spaces indent ++ codes "]")))
  format first indent (node e_root k v kv arr) = []
  format first indent (node _ k v kv arr) = lead first indent k ++ v

  pub format_members : Bool → ℕ → Members → Bytes
  format_members first indent no_members = []
  format_members first indent (member k n others) =
      format first indent n ++ format_members false indent others

  pub format_items : Bool → ℕ → Items → Bytes
  format_items first indent no_items = []
  format_items first indent (item n others) =
      format first indent n ++ format_items false indent others
