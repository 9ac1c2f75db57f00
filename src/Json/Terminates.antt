-- ===== src/Json/Terminates.antt =====
-- The decoder of Include/util/json.hpp ends on every text.
use hzrobot.Prelude.{
  ℕ, zero, suc, ◌<◌, ◌≤◌, Bool, true, false, not, ◌&&◌, ◌||◌, ◌==◌, if◌then◌else◌, Option, some,
  none, [], ◌∷◌, Bytes, codes, length, drop, length-drop, ◌≡◌, ◌≢◌, refl, subst, arith,
}
use mathlib.Core.Option
use hzrobot.Text.Search.{starts_with}
use hzrobot.Json.{Kind, e_boolean, e_null, e_object, e_array, Node, node, new_node}
use hzrobot.Json.Decode.{
  Parsed, parsed, rejected, thrown, stuck, DecodeStep, e_decode_key, e_decode_type, skip_space,
  skip_number, find_char, is_good_number, number_kind, number_at, parse_number, scan_string,
  parse_string, string_at, keyed_at, child_at, after_child, symbol_at, parse_symbol, attach,
  as_kind, signed, decode_value, after_colon, decode_type, key_at, decode, parse_object,
  decode_root, Objects, is_digit,
}

-- The outcome is not for want of fuel, and at most so many bytes are left.
abbrev pub Ends : ℕ → Parsed → Type 0
Ends bound (parsed n rest) = length rest ≤ bound
Ends bound (rejected n) = Unit
Ends bound thrown = Unit
Ends bound stuck = ⊥

Ends-le : (a b : ℕ) (p : Parsed) → a ≤ b → Ends a p → Ends b p
Ends-le a b (parsed n rest) h e = omega arith
Ends-le a b (rejected n) h e = tt
Ends-le a b thrown h e = tt
Ends-le a b stuck h e = e

Ends-if :
    (bound : ℕ) (b : Bool) (p q : Parsed)
    → Ends bound p
    → Ends bound q
    → Ends bound (if b then p else q)
Ends-if bound true p q h k = h
Ends-if bound false p q h k = k

length-skip_space : (xs : Bytes) → length (skip_space xs) ≤ length xs
unfolding skip_space
length-skip_space [] = omega arith
length-skip_space (c ∷ cs) = ground (arith, length-skip_space cs)

length-skip_number : (xs : Bytes) → length ((skip_number xs).1) ≤ length xs
unfolding skip_number
length-skip_number [] = omega arith
length-skip_number (c ∷ cs) = ground (arith, length-skip_number cs)

number_at-Ends : (n : Node) (value rest : Bytes) → Ends (length rest) (number_at n value rest)
unfolding number_at
number_at-Ends n value [] = tt
number_at-Ends (node t k v kv arr) value (c ∷ rest) =
    Ends-if (suc (length rest)) (is_good_number value)
      (parsed (node (number_kind value) k value kv arr) (c ∷ rest))
      (rejected (node t k value kv arr)) (omega arith) tt

parse_number-Ends : (n : Node) (text : Bytes) → Ends (length text) (parse_number n text)
unfolding parse_number
parse_number-Ends n [] = tt
parse_number-Ends n (c ∷ cs) =
    Ends-le (length ((skip_number cs).1)) (suc (length cs)) _ (omega (arith, length-skip_number cs))
      (number_at-Ends n (c ∷ (skip_number cs).0) ((skip_number cs).1))

-- A search that stops here or goes on leaves no more than it was given.
found-length :
    (b : Bool) (c bound : ℕ) (stop : Bytes) (o : Option (Bytes × Bytes)) (r : Bytes × Bytes)
    → ((x : Bytes × Bytes) → o ≡ some x → length x.1 ≤ bound)
    → length stop ≤ bound
    → (if b then some ([], stop) else Option.map (λ x. (c ∷ x.0, x.1)) o) ≡ some r
    → length r.1 ≤ bound
found-length true c bound stop o r later here h =
    let e : Path (Bytes × Bytes) ([], stop) r = cc in subst (λ x. length x.1 ≤ bound) e here
found-length false c bound stop none r later here h = absurd cc
found-length false c bound stop (some x) r later here h =
    let e : Path (Bytes × Bytes) (c ∷ x.0, x.1) r = cc in
    subst (λ y. length y.1 ≤ bound) e (later x refl)

scan_string-length :
    (ch before : ℕ) (xs : Bytes) (r : Bytes × Bytes)
    → scan_string ch before xs ≡ some r
    → length r.1 ≤ length xs
unfolding scan_string
scan_string-length ch before [] r h = absurd cc
scan_string-length ch before (c ∷ cs) r h =
    found-length (c == ch && not (before == b'\\')) c (suc (length cs)) cs (scan_string ch c cs) r
      (λ x e. omega (arith, scan_string-length ch c cs x e)) (omega arith) h

find_char-length :
    (ch : ℕ) (xs : Bytes) (r : Bytes × Bytes) → find_char ch xs ≡ some r → length r.1 ≤ length xs
unfolding find_char
find_char-length ch [] r h = absurd cc
find_char-length ch (c ∷ cs) r h =
    found-length (c == ch) c (suc (length cs)) (c ∷ cs) (find_char ch cs) r
      (λ x e. omega (arith, find_char-length ch cs x e)) (omega arith) h

string_at-Ends :
    (n : Node) (bound : ℕ) (o : Option (Bytes × Bytes))
    → ((r : Bytes × Bytes) → o ≡ some r → length r.1 ≤ bound)
    → Ends bound (string_at n o)
unfolding string_at
string_at-Ends n bound none h = tt
string_at-Ends (node t k v kv arr) bound (some r) h = h r refl

parse_string-Ends : (n : Node) (ch : ℕ) (cs : Bytes) → Ends (length cs) (parse_string n ch cs)
unfolding parse_string
parse_string-Ends n ch cs =
    string_at-Ends n (length cs) (scan_string ch ch cs) (scan_string-length ch ch cs)

symbol_at-Ends :
    (n : Node) (t : Kind) (symbol rest : Bytes) → Ends (length rest) (symbol_at n t symbol rest)
unfolding symbol_at
symbol_at-Ends n t symbol [] = tt
symbol_at-Ends (node t k v kv arr) type symbol (c ∷ rest) =
    Ends-if (suc (length rest)) (c == b',' || c == b'}')
      (parsed (node type k symbol kv arr) (c ∷ rest)) (rejected (node t k v kv arr)) (omega arith)
      tt

parse_symbol-Ends :
    (n : Node) (t : Kind) (symbol text : Bytes) → Ends (length text) (parse_symbol n t symbol text)
unfolding parse_symbol
parse_symbol-Ends n t symbol text =
    let rest = skip_space (drop (length symbol) text) in
    Ends-le (length rest) (length text) _
      (omega
        (arith, length-skip_space (drop (length symbol) text), length-drop (length symbol) text))
      (symbol_at-Ends n t symbol rest)

signed-Ends : (n : Node) (cs : Bytes) → Ends (suc (length cs)) (signed n cs)
unfolding signed
signed-Ends n [] = tt
signed-Ends n (d ∷ cs) =
    Ends-if (suc (suc (length cs))) (is_digit d) (parse_number n (b'-' ∷ d ∷ cs))
      (parsed n (b'-' ∷ d ∷ cs)) (parse_number-Ends n (b'-' ∷ d ∷ cs)) (omega arith)

-- Children that end on all texts below a length.
abbrev EndBelow : ℕ → Objects → Type 0
EndBelow bound objects =
    (n : Node) (step : DecodeStep) (symbol : ℕ) (text : Bytes)
    → length text < bound
    → Ends (length text) (objects n step symbol text)

module _ (objects : Objects) where
  decode_value-Ends :
      (n : Node) (text : Bytes)
      → EndBelow (length text) objects
      → Ends (length text) (decode_value objects n text)
  unfolding decode_value
  decode_value-Ends n [] below = tt
  decode_value-Ends n (c ∷ cs) below =
      let whole = c ∷ cs in
      let longer : (p : Parsed) → Ends (length cs) p → Ends (suc (length cs)) p =
        λ p e. Ends-le (length cs) (suc (length cs)) p (omega arith) e in
      Ends-if _ (c == b'{') _ _
        (longer _ (below (as_kind e_object n) e_decode_key b'}' cs (omega arith)))
        (Ends-if _ (c == b'[') _ _
          (longer _ (below (as_kind e_array n) e_decode_type b']' cs (omega arith)))
          (Ends-if _ (is_digit c) _ _ (parse_number-Ends n whole) (
            Ends-if _ (c == b'-') _ _ (signed-Ends n cs) (
              Ends-if _ (c == b'"' || c == b'\'') _ _ (longer _ (parse_string-Ends n c cs)) (
                Ends-if _ (starts_with (codes "true") whole) _ _
                  (parse_symbol-Ends n e_boolean (codes "true") whole)
                  (Ends-if _ (starts_with (codes "false") whole) _ _
                    (parse_symbol-Ends n e_boolean (codes "false") whole)
                    (Ends-if _ (starts_with (codes "null") whole) _ _
                      (parse_symbol-Ends n e_null (codes "null") whole) (omega arith))))))))

  after_colon-Ends :
      (n : Node) (text : Bytes)
      → EndBelow (length text) objects
      → Ends (length text) (after_colon objects n text)
  unfolding after_colon
  after_colon-Ends n [] below = tt
  after_colon-Ends n (c ∷ cs) below =
      let rest = skip_space cs in
      let shorter = length-skip_space cs in
      Ends-if _ (c == b':') _ _
        (Ends-le (length rest) (suc (length cs)) _ (omega (arith, shorter))
          (decode_value-Ends n rest (λ m s y t h. below m s y t (omega (arith, shorter)))))
        tt

  decode_type-Ends :
      (n : Node) (text : Bytes)
      → EndBelow (length text) objects
      → Ends (length text) (decode_type objects n text)
  unfolding decode_type
  decode_type-Ends (node t [] v kv arr) text below =
      let shorter = length-skip_space text in
      Ends-le (length (skip_space text)) (length text) _ shorter (
        decode_value-Ends (node t [] v kv arr) (skip_space text)
          (λ m s y t h. below m s y t (omega (arith, shorter))))
  decode_type-Ends (node t (c ∷ cs) v kv arr) text below =
      let shorter = length-skip_space text in
      Ends-le (length (skip_space text)) (length text) _ shorter (
        after_colon-Ends (node t (c ∷ cs) v kv arr) (skip_space text)
          (λ m s y t h. below m s y t (omega (arith, shorter))))

  keyed_at-Ends :
      (n : Node) (bound : ℕ) (o : Option (Bytes × Bytes))
      → ((r : Bytes × Bytes) → o ≡ some r → length r.1 ≤ bound)
      → EndBelow bound objects
      → Ends bound (keyed_at objects n o)
  unfolding keyed_at
  keyed_at-Ends n bound none h below = tt
  keyed_at-Ends (node t k v kv arr) bound (some r) h below =
      let n' = node t r.0 v kv arr in
      let shorter : length (drop 1 r.1) ≤ bound = omega (arith, h r refl, length-drop 1 r.1) in
      Ends-le (length (drop 1 r.1)) bound _ shorter
        (decode_type-Ends n' (drop 1 r.1) (λ m s y u b. below m s y u (omega arith)))

  key_at-Ends :
      (n : Node) (text : Bytes)
      → EndBelow (length text) objects
      → Ends (length text) (key_at objects n text)
  unfolding key_at
  key_at-Ends n [] below = tt
  key_at-Ends n (c ∷ cs) below =
      Ends-if _ (c == b'\'' || c == b'"') _ _
        (Ends-le (length cs) (suc (length cs)) _ (omega arith) (
          keyed_at-Ends n (length cs) (find_char c cs) (find_char-length c cs)
            (λ m s y t h. below m s y t (omega arith))))
        (Ends-if _ (c == b'}') _ _ (omega arith) tt)

  decode-Ends :
      (step : DecodeStep) (n : Node) (text : Bytes)
      → EndBelow (length text) objects
      → Ends (length text) (decode objects step n text)
  unfolding decode
  decode-Ends e_decode_type n text below = decode_type-Ends n text below
  decode-Ends e_decode_key n text below =
      let shorter = length-skip_space text in
      Ends-le (length (skip_space text)) (length text) _ shorter
        (key_at-Ends n (skip_space text) (λ m s y t h. below m s y t (omega (arith, shorter))))

child_at-Ends :
    (next : Node → Bytes → Parsed) (without n : Node) (symbol : ℕ) (text : Bytes)
    → ((m : Node) (cs : Bytes) → length cs < length text → Ends (length cs) (next m cs))
    → Ends (length text) (child_at next without n symbol text)
unfolding child_at
child_at-Ends next without n symbol [] more = tt
child_at-Ends next without n symbol (c ∷ cs) more = Ends-if _ (c == symbol) _ _ (omega arith) (
    Ends-if _ (c == b',') _ _
      (Ends-le (length cs) (suc (length cs)) _ (omega arith) (more n cs (omega arith))) tt)

after_child-Ends :
    (next : Node → Bytes → Parsed) (n : Node) (symbol bound : ℕ) (p : Parsed)
    → ((m : Node) (cs : Bytes) → length cs < bound → Ends (length cs) (next m cs))
    → Ends bound p
    → Ends bound (after_child next n symbol p)
unfolding after_child
after_child-Ends next n symbol bound (rejected m) more e = tt
after_child-Ends next n symbol bound thrown more e = tt
after_child-Ends next n symbol bound stuck more e = e
after_child-Ends next n symbol bound (parsed child text) more e =
    let shorter = length-skip_space text in
    Ends-le (length (skip_space text)) bound _ (omega (arith, shorter, e)) (
      child_at-Ends next n (attach child n) symbol (skip_space text)
        (λ m cs h. more m cs (omega (arith, shorter, e))))

parse_object-Ends :
    (fuel : ℕ) (n : Node) (step : DecodeStep) (symbol : ℕ) (text : Bytes)
    → length text < fuel
    → Ends (length text) (parse_object fuel n step symbol text)
unfolding parse_object
parse_object-Ends zero n step symbol text h = absurd (omega arith)
parse_object-Ends (suc fuel) n step symbol text h =
    after_child-Ends (λ m cs. parse_object fuel m step symbol cs) n symbol (length text) _
      (λ m cs b. parse_object-Ends fuel m step symbol cs (omega arith))
      (decode-Ends (parse_object fuel) step new_node text
        (λ m s y t b. parse_object-Ends fuel m s y t (omega arith)))

-- Decoding ends on every text: the fuel, one more than the length of the text, is enough.
pub decode_root-ends : (text : Bytes) → decode_root text ≢ stuck
unfolding decode_root
decode_root-ends text e = subst (Ends (length text)) e (
    decode-Ends (parse_object (suc (length text))) e_decode_type new_node text
      (λ m s y t b. parse_object-Ends (suc (length text)) m s y t (omega arith)))
