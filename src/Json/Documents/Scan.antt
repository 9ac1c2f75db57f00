-- ===== src/Json/Documents/Scan.antt =====
-- The texts of strings, numbers and keys, as the decoder of Include/util/json.hpp scans them.
use hzrobot.Prelude.{
  ℕ, ◌<◌, true, false, ◌==◌, some, none, [], ◌∷◌, ◌++◌, Bytes, All, ◌≡◌, ◌≢◌, refl, arith,
}
use hzrobot.Text.Search.{starts_with, find_first, find_last}
use hzrobot.Json.{e_integer, e_object, node, no_members, no_items}
use hzrobot.Json.Decode.{
  ends_in_dot, parsed, is_number, skip_space, skip_number, find_char, is_good_number, number_kind,
  number_at, parse_number, scan_string,
}
use hzrobot.Json.Documents.{
  IsPrinted, IsDigit, Doc, text, numeral, object, array, IsDoc, print, to_node,
}

pub scan_string-IsPrinted :
    (before : ℕ) (v rest : Bytes)
    → before ≢ b'\\'
    → All IsPrinted v
    → scan_string b'"' before (v ++ b'"' ∷ rest) ≡ some (v, rest)
unfolding scan_string
scan_string-IsPrinted before [] rest b h = ground arith
scan_string-IsPrinted before (c ∷ cs) rest b h =
    let other : (c == b'"') ≡ false = ground arith in
    rw (other, scan_string-IsPrinted c cs rest h.0.0 h.1)

pub find_char-IsPrinted :
    (k rest : Bytes) → All IsPrinted k → find_char b'"' (k ++ b'"' ∷ rest) ≡ some (k, b'"' ∷ rest)
unfolding find_char
find_char-IsPrinted [] rest h = refl
find_char-IsPrinted (c ∷ cs) rest h =
    let other : (c == b'"') ≡ false = ground arith in rw (other, find_char-IsPrinted cs rest h.1)

pub skip_number-digits :
    (v : Bytes) (c : ℕ) (rest : Bytes)
    → All IsDigit v
    → is_number c ≡ false
    → skip_number (v ++ c ∷ rest) ≡ (v, c ∷ rest)
unfolding skip_number
skip_number-digits [] c rest h stop = rw stop
skip_number-digits (d ∷ ds) c rest h stop =
    let digit : is_number d ≡ true = ground arith in
    rw (digit, skip_number-digits ds c rest h.1 stop)

-- Digits hold no dot and no sign.
pub find_first-digits :
    (x : ℕ) (v : Bytes) → x < b'0' → All IsDigit v → find_first (x ∷ []) v ≡ none
unfolding find_first starts_with
find_first-digits x [] b h = refl
find_first-digits x (c ∷ cs) b h =
    let other : (x == c) ≡ false = ground arith in rw (other, find_first-digits x cs b h.1)

pub find_last-digits : (x : ℕ) (v : Bytes) → x < b'0' → All IsDigit v → find_last (x ∷ []) v ≡ none
unfolding find_last starts_with
find_last-digits x [] b h = refl
find_last-digits x (c ∷ cs) b h =
    let other : (x == c) ≡ false = ground arith in rw (find_last-digits x cs b h.1, other)

pub ends_in_dot-digits : (v : Bytes) → All IsDigit v → ends_in_dot v ≡ false
unfolding ends_in_dot
ends_in_dot-digits [] h = refl
ends_in_dot-digits (c ∷ []) h = ground arith
ends_in_dot-digits (c ∷ d ∷ cs) h = ends_in_dot-digits (d ∷ cs) h.1

pub is_good_number-digits : (v : Bytes) → All IsDigit v → is_good_number v ≡ true
unfolding is_good_number starts_with find_first find_last
is_good_number-digits [] h = refl
is_good_number-digits (c ∷ cs) h =
    let v = c ∷ cs in
    let sign : (b'-' == c) ≡ false = ground arith in
    rw
      (
        find_first-digits b'.' v (omega arith) h,
        find_last-digits b'.' v (omega arith) h,
        ends_in_dot-digits v h,
        find_first-digits b'-' v (omega arith) h,
        sign,
      )
      refl

pub number_kind-digits : (v : Bytes) → All IsDigit v → number_kind v ≡ e_integer
unfolding number_kind
number_kind-digits v h = rw (find_first-digits b'.' v (omega arith) h, number_kind) refl

pub parse_number-digits :
    (k : Bytes) (c : ℕ) (cs : Bytes) (stop : ℕ) (rest : Bytes)
    → All IsDigit (c ∷ cs)
    → is_number stop ≡ false
    → parse_number (node e_object k [] no_members no_items) (c ∷ (cs ++ stop ∷ rest))
      ≡ parsed (to_node k (numeral (c ∷ cs))) (stop ∷ rest)
unfolding parse_number number_at to_node
parse_number-digits k c cs stop rest h s =
    rw
      (
        skip_number-digits cs stop rest h.1 s,
        is_good_number-digits (c ∷ cs) h,
        number_kind-digits (c ∷ cs) h,
      )
      refl

pub skip_space-digits : (c : ℕ) (rest : Bytes) → IsDigit c → skip_space (c ∷ rest) ≡ c ∷ rest
unfolding skip_space
skip_space-digits c rest h = ground arith

pub skip_space-print :
    (d : Doc) (rest : Bytes) → IsDoc d → skip_space (print d ++ rest) ≡ print d ++ rest
unfolding skip_space print IsDoc
skip_space-print (text v) rest h = refl
skip_space-print (numeral []) rest h = absurd (h.0 refl)
skip_space-print (numeral (c ∷ cs)) rest h = skip_space-digits c (cs ++ rest) h.1.0
skip_space-print (object fs) rest h = refl
skip_space-print (array ds) rest h = refl
