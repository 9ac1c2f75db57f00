-- ===== src/Tests/Models.antt =====
-- An object that is written and read. A number is written as a 0 and as many ones, with a minus sign
-- before one that is negative.
use hzrobot.Prelude.{
  ℤ, pos, negsuc, IsInt, ap, ◌==◌, ◌≢◌, if◌then◌else◌, ℕ, zero, suc, true, some, [], ◌∷◌, Bytes,
  codes, equal, length, ◌≡◌, refl, arith,
}
use hzrobot.Json.{less}
use hzrobot.Json.Encode.{encode_string, encode_char}
use hzrobot.Json.Documents.{
  Doc, text, numeral, object, array, no_fields, field, no_docs, doc, IsDoc, printed-All,
}
use hzrobot.Json.Models.{
  string_field, int_field, vector_field, map_field, Columns, no_columns, column, Value, Row,
  json_encode,
}
use hzrobot.Json.Models.Docs.{
  gather, gather_fields, text_doc, vector_doc, map_doc, model_doc, to_doc, HaveKeys,
}
use hzrobot.Json.Models.Reading.{initial_row, json_decode}
use hzrobot.Json.Models.Reading.RoundTrip.{json_decode-json_encode}
use hzrobot.Json.Models.Reading.Whole.{AreWhole}

abbrev ones : ℕ → Bytes
ones zero = []
ones (suc n) = b'1' ∷ ones n

abbrev decimal : ℤ → Bytes
decimal (pos n) = b'0' ∷ ones n
decimal (negsuc n) = b'-' ∷ ones n

abbrev atoi : Bytes → ℤ
atoi [] = pos 0
atoi (c ∷ cs) = if c == b'-' then negsuc (length cs) else pos (length cs)

length-ones : (n : ℕ) → length (ones n) ≡ n
length-ones zero = refl
length-ones (suc n) = omega (arith, length-ones n)

reads_back : (z : ℤ) → IsInt z → atoi (decimal z) ≡ z
reads_back (pos n) is = ap pos (length-ones n)
reads_back (negsuc n) is = ap negsuc (length-ones n)

decimal-given : (z : ℤ) → decimal z ≢ []
decimal-given (pos n) = λ e. cc
decimal-given (negsuc n) = λ e. cc

abbrev shape : Columns
shape = column (codes "name") string_field (
    column (codes "ids") (vector_field int_field)
      (column (codes "tags") (map_field string_field) no_columns))

abbrev robot : Row shape
unfolding Value
robot =
    (codes "r1", (pos 2 ∷ pos 0 ∷ [], ((codes "a", codes "x") ∷ (codes "b", codes "y") ∷ [], tt)))

abbrev robot_doc : Doc
robot_doc = object (
    field (codes "name") (text (codes "r1")) (
      field (codes "ids") (array (doc (numeral (codes "011")) (doc (numeral (codes "0")) no_docs)))
        (field (codes "tags")
          (object
            (field (codes "a") (text (codes "x")) (field (codes "b") (text (codes "y")) no_fields)))
          no_fields)))

robot_doc-IsDoc : IsDoc robot_doc
unfolding IsDoc
robot_doc-IsDoc = (
  (λ e. cc),
  printed-All (codes "name") refl,
  printed-All (codes "r1") refl,
  (
    (λ e. cc),
    printed-All (codes "ids") refl,
    (
      (
        (λ e. cc),
        (
          (omega arith, omega arith),
          ((omega arith, omega arith), ((omega arith, omega arith), tt)),
        ),
      ),
      tt,
      (((λ e. cc), ((omega arith, omega arith), tt)), tt, tt),
    ),
    (
      (λ e. cc),
      printed-All (codes "tags") refl,
      (
        (λ e. cc),
        printed-All (codes "a") refl,
        printed-All (codes "x") refl,
        ((λ e. cc), printed-All (codes "b") refl, printed-All (codes "y") refl, tt),
      ),
      tt,
    ),
  ),
)

json_decode-json_encode_example :
    json_decode atoi
      (pos 7)
      shape
      (json_encode decimal shape robot)
      (initial_row atoi (pos 7) shape)
    ≡ some (true, robot)
unfolding Value HaveKeys AreWhole to_doc encode_string encode_char text_doc vector_doc map_doc
    gather gather_fields model_doc less equal
json_decode-json_encode_example =
    json_decode-json_encode decimal atoi (pos 7) reads_back shape robot robot_doc decimal-given
      (tt, ((tt, (tt, tt)), ((((λ e. cc), tt), (((λ e. cc), tt), tt)), tt)))
      ((refl, refl, (refl, refl, tt)), ((refl, refl, tt), (tt, tt)))
      (
        tt,
        (
          (((_, refl), omega arith), (((_, refl), omega arith), tt)),
          (((((_, refl), tt), (((_, refl), tt), tt)), ((refl, tt), (tt, tt))), tt),
        ),
      )
      refl robot_doc-IsDoc
