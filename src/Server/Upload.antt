-- ===== src/Server/Upload.antt =====
-- The upload of a configuration file in `handle_request` of Include/http/Source/HttpServer.cpp:
-- the multipart body is read line by line, and the bytes of its part go into the file.
use hzrobot.Prelude.{
  ℕ, ◌+◌, ◌-◌, ◌%◌, ◌^◌, ◌==◌, ltb, leb, if◌then◌else◌, Option, some, none, List, [], ◌∷◌, ◌++◌,
  Bytes, codes, length, drop, take, equal, c_str,
}
use hzrobot.Text.Search.{contains, find_first, find_last}
use hzrobot.Server.Reply.{first_word}

-- `f_config`, with the file that it was opened on. Opening it again puts the stream into a failed
-- state, in which it writes nothing.
pub data Stream : Type 0 where
  closed : Stream
  open_on failed_on : Bytes → Stream

unfoldable pub open_stream : Stream → Bytes → Stream
open_stream closed name = open_on name
open_stream (open_on other) name = failed_on other
open_stream (failed_on other) name = failed_on other

-- Opening truncates; this is what the file holds in the end.
unfoldable pub write_stream : Stream → Bytes → Option (Bytes × Bytes)
write_stream closed content = none
write_stream (open_on name) content = some (name, content)
write_stream (failed_on name) content = some (name, [])

pub data Ending : Type 0 where
  -- After the loop, after `bad_request`, and with `std::out_of_range` from `substr`.
  finished refused thrown : Ending

pub record Uploaded : Type 0 where
  pub ending : Ending
  pub wrote : Option (Bytes × Bytes)

-- The lines that `getline` reads, each with the bytes behind it.
unfoldable pub lines_from : Bytes → Bytes → List (Bytes × Bytes)
lines_from [] [] = []
lines_from (b ∷ line) [] = (b ∷ line, []) ∷ []
lines_from line (c ∷ cs) =
    let ends = (line, cs) ∷ lines_from [] cs in
    let more = lines_from (line ++ c ∷ []) cs in if c == b'\n' then ends else more

abbrev pub max_char_size : ℕ
max_char_size = 102400

-- `s_line.substr(s_line.find("."), s_line.rfind("\"") - s_line.find("."))`; `none` is the
-- exception for a line without a dot. A count that wraps around takes the rest of the line.
unfoldable pub postfix : Bytes → Option Bytes
postfix line = elim (find_first (codes ".") line) [
  | none ↦ none
  | some dot ↦ elim (find_last (codes "\"") line) [
    | none ↦ some (drop dot line)
    | some quote ↦
        some (if leb dot quote then take (quote - dot) (drop dot line) else drop dot line)
  ]
]

-- The name of the file by the first of three words that the line contains.
unfoldable pub config_name : Bytes → Bytes → Option Bytes
config_name line ext =
    if contains (codes "mysql_config") line
    then some (codes "mysql_config" ++ ext)
    else if contains (codes "photo_config") line
    then some (codes "photo_config" ++ ext)
    else if contains (codes "server_config") line
    then some (codes "server_config" ++ ext)
    else none

-- What a `Content-Disposition:` line leads to: an ending, or a file to open.
pub data Disposition : Type 0 where
  stops : Ending → Disposition
  opens : Bytes → Disposition

unfoldable pub disposition : Bytes → Disposition
disposition line = elim (postfix line) [
  | none ↦ stops thrown
  | some ext ↦
      if equal ext (codes ".xml")
      then elim (config_name line ext) [ none ↦ stops refused | some name ↦ opens name ]
      else stops refused
]

-- `while (strstream && ncount + 2 < req.body().rfind(s_delimit) - 2)`, a byte at a time.
unfoldable pub copy : ℕ → ℕ → Bytes → Bytes
copy limit ncount [] = []
copy limit ncount (c ∷ cs) =
    let more = c ∷ copy limit (ncount + 1) cs in if ltb (ncount + 2) limit then more else []

-- From a `Content-Type:` line on: one line is skipped, and the bytes behind it are copied.
unfoldable pub content_part : ℕ → Stream → ℕ → List (Bytes × Bytes) → Uploaded
content_part limit f ncount [] = record { ending = finished; wrote = write_stream f [] }
content_part limit f ncount ((skipped, rest) ∷ _) = record {
  ending = finished;
  wrote = write_stream f (
      if ltb (length skipped) max_char_size
      then copy limit (ncount + length (c_str skipped) + 1) rest
      else []);
}

-- The loop over the lines; a line that does not fit the buffer ends it.
unfoldable pub upload_loop : ℕ → Stream → ℕ → List (Bytes × Bytes) → Uploaded
upload_loop limit f ncount [] = record { ending = finished; wrote = write_stream f [] }
upload_loop limit f ncount ((raw, _) ∷ more) =
    let line = c_str raw in
    let ncount' = ncount + length line + 1 in
    let next = upload_loop limit f ncount' more in
    let disposed : Uploaded = elim (disposition line) [
      | stops ending ↦ record { ending = ending; wrote = write_stream f [] }
      | opens name ↦ upload_loop limit (open_stream f name) ncount' more
    ] in
    if ltb (length raw) max_char_size
    then (if contains (codes "Content-Disposition:") line
        then disposed
        else if contains (codes "Content-Type:") line
        then content_part limit f ncount' more
        else next)
    else record { ending = finished; wrote = write_stream f [] }

-- `req.body().rfind(s_delimit) - 2` in 64 bits; `npos` is the largest number.
unfoldable pub copy_limit : Bytes → Bytes → ℕ
copy_limit delimit body = elim (find_last delimit body) [
  | none ↦ 2 ^ 64 - 3
  | some p ↦ (p + 2 ^ 64 - 2) % 2 ^ 64
]

-- From the search for the boundary on.
unfoldable pub config_upload : Bytes → Bytes → Uploaded
config_upload content_type body = elim (find_first (codes "boundary=") content_type) [
  | none ↦ record { ending = refused; wrote = none }
  | some pos ↦
      let delimit = first_word (drop (pos + 9) content_type) in
      upload_loop (copy_limit delimit body) closed 0 (lines_from [] body)
]
