-- ===== src/Tests/Config.antt =====
-- A file with two rows of cells, and a value that is written and read.
use hzrobot.Prelude.{
  ℤ, pos, negsuc, ◌<◌, ◌^◌, ℕ, ◌+◌, ◌%◌, true, ◌==◌, if◌then◌else◌, Option, some, none, List, [],
  ◌∷◌, map, Bytes, codes, equal, All, ◌≡◌, ◌≢◌, refl, arith,
}
use hzrobot.Json.{Node, get_value, find_kv_child}
use hzrobot.Json.Encode.{encode_string, encode_char}
use hzrobot.Json.Decode.{parsed, decode_root}
use hzrobot.Json.Documents.{IsDigit}
use hzrobot.Json.Models.{
  string_field, vector_field, Value, Row, encode_field, encode_vector, encode_text, enclose, join,
}
use hzrobot.Config.{Document, Config, robot_columns, returned}
use hzrobot.Config.Photo.{first_row, loadphoto_config}
use hzrobot.Config.Table.{
  no_cells, next_cell, no_rows, AreRows, next_row, row_of, tablenum_of, rows_at, type_of,
  loadphoto_config-returned,
}
use hzrobot.Config.Body.{earlier, body_of, body_of-tablenum}

-- Node 0 is the root, 1 `table_xx`, 2 and 3 its rows, 4 and 5 the cells of the first, 6 of the second.
abbrev next : ℕ → Option ℕ
next n = if n == 2 then some 3 else if n == 4 then some 5 else none

abbrev child : ℕ → Option ℕ
child n = if n == 1 then some 2 else if n == 2 then some 4 else if n == 3 then some 6 else none

abbrev two_rows : Document ℕ
two_rows = record {
  root_element = some 0;
  first_child = child;
  first_child_named = λ n name. some 1;
  to_element = λ n. some n;
  first_child_element = child;
  next_sibling_element = next;
  get_text = λ n. some (codes "7");
}

abbrev files : Bytes → Option (Document ℕ)
files name = some two_rows

abbrev atoi : Bytes → ℤ
atoi t = pos 7

abbrev table : List (List Bytes)
table = (codes "7" ∷ codes "7" ∷ []) ∷ (codes "7" ∷ []) ∷ []

-- A last digit, which is enough for the numbers here, behind the sign.
abbrev decimal : ℤ → Bytes
decimal (pos n) = (48 + n % 10) ∷ []
decimal (negsuc n) = b'-' ∷ (48 + (n + 1) % 10) ∷ []

decimal-given : (z : ℤ) → decimal z ≢ []
decimal-given (pos n) = λ e. cc
decimal-given (negsuc n) = λ e. cc

decimal-digits : (n : ℕ) → n < 2 ^ 31 → All IsDigit (decimal (pos n))
decimal-digits n small = ((omega arith, omega arith), tt)

abbrev robot : Row robot_columns
unfolding Value
robot = ([], tt)

abbrev unloaded_config : Config
unloaded_config = record {
  sql_config = record { ip = []; port = []; user = []; passwd = []; dbname = [] };
  ser_config = record {
    server_ip = [];
    server_port = 0;
    doc_root = [];
    threads = pos 0;
    robot_ip = [];
    robot_port = [];
    ea_ip = [];
    ea_port = [];
    timeout = pos 0;
    cn_photo = pos 0;
  };
  photo_config = earlier (pos 1) (pos 0) none;
  c_robot_ip = robot;
}

abbrev two_rows-AreRows : AreRows two_rows (first_row two_rows atoi) table
unfolding first_row
two_rows-AreRows =
    next_row 2 _ _ (next_cell 4 _ _ refl (next_cell 5 _ _ refl no_cells))
      (next_row 3 _ _ (next_cell 6 _ _ refl no_cells) no_rows)

loadphoto_config-returned_example :
    (config' : Config) × (loadphoto_config files atoi 2 unloaded_config ≡ returned true config')
    × (tablenum_of config' ≡ pos 3)
    × (rows_at (codes "row") config' ≡ some (map (row_of atoi) table))
    × (rows_at (codes "col") config' ≡ rows_at (codes "col") unloaded_config)
    × (type_of config' ≡ type_of unloaded_config)
    × (config'.sql_config ≡ unloaded_config.sql_config)
    × (config'.ser_config ≡ unloaded_config.ser_config)
    × (config'.c_robot_ip ≡ unloaded_config.c_robot_ip)
unfolding equal
loadphoto_config-returned_example =
    loadphoto_config-returned atoi two_rows files 2 table unloaded_config (codes "col") refl
      two_rows-AreRows (omega arith) (omega arith, (omega arith, tt)) refl

body_of-tablenum_example :
    (config' : Config) × (n : Node) × (child : Node) × (loadphoto_config files atoi 2
        unloaded_config
      ≡ returned true config')
    × (decode_root (body_of decimal config') ≡ parsed n [])
    × (find_kv_child (codes "tablenum") n ≡ some child)
    × (get_value child ≡ codes "3")
unfolding earlier
body_of-tablenum_example =
    body_of-tablenum decimal decimal-given decimal-digits atoi two_rows files 2 1 (pos 0) none table
      unloaded_config refl two_rows-AreRows (omega arith) (omega arith, (omega arith, tt))
      (((7, refl, omega arith), ((7, refl, omega arith), tt)), (((7, refl, omega arith), tt), tt))
      (omega arith) (omega arith) refl

abbrev strings : List Bytes → Value (vector_field string_field)
unfolding Value
strings words = words

-- An element that is empty is lost.
empty_word_lost :
    encode_field decimal (vector_field string_field) (strings (codes "a" ∷ [] ∷ codes "b" ∷ []))
    ≡ codes "[\"a\",\"b\"]"
unfolding Value encode_field encode_vector encode_text enclose join encode_string encode_char
empty_word_lost = refl
