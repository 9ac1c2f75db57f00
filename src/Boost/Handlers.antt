-- ===== src/Boost/Handlers.antt =====
-- Include/http/Source/HttpBoost.cpp: a client on Boost.Asio whose handlers follow one another, each
-- after an operation of the library. What the library reads into the buffer `response_` is a
-- parameter of each step; the build is one without `_DEBUG`.
pub mod Content
use hzrobot.Prelude.{
  ℕ, zero, suc, ◌+◌, ◌-◌, Bool, true, false, not, ◌||◌, ◌&&◌, ◌==◌, ltb, leb, if◌then◌else◌, Option,
  some, none, List, [], ◌∷◌, ◌++◌, Bytes, codes, equal, length, take, drop,
}
use hzrobot.Boost.{Url, parse_url}

-- The buffers of the client and `responseData_`.
pub record HttpBoost : Type 0 where
  pub request : Bytes
  pub response : Bytes
  pub response_data : Bytes

-- The operation that runs; `idle` is that none does.
pub data Stage : Type 0 where
  resolves : Bytes → Bytes → Stage
  connects writes_request reads_status reads_headers reads_content idle : Stage

-- How an operation ends: with what it read, at the end of the stream, or with another error.
pub data Completion : Type 0 where
  completes : Bytes → Completion
  ends fails : Completion

-- The strings that `handle_request_resolve` goes on with; it does not look at the value of
-- `parseUrl`.
abbrev pub url_or_empty : Option Url → Url
url_or_empty none = record { server = []; port = []; path = [] }
url_or_empty (some url) = url

unfoldable pub handle_request_resolve :
    Bytes → (Bytes → Bytes → Bytes) → HttpBoost → Stage × HttpBoost
unfolding parse_url
handle_request_resolve url build client =
    let parsed = url_or_empty (parse_url url) in
    (
      resolves parsed.server parsed.port,
      record client {
        request = client.request ++ build parsed.server parsed.path;
        response_data = [];
      },
    )

-- White space in the C locale.
unfoldable pub isspace : ℕ → Bool
isspace c = c == b' ' || leb 9 c && leb c 13

unfoldable pub skip_spaces : Bytes → Bytes
unfolding isspace
skip_spaces [] = []
skip_spaces (c ∷ cs) = let rest = skip_spaces cs in if isspace c then rest else c ∷ cs

-- `stream >> word` after the spaces: the word and what is left.
unfoldable pub read_word : Bytes → Bytes × Bytes
unfolding isspace
read_word [] = ([], [])
read_word (c ∷ cs) =
    let (word, rest) = read_word cs in if isspace c then ([], c ∷ cs) else (c ∷ word, rest)

-- `std::getline`: the line and what is left; `none` at the end of the stream.
unfoldable pub line_of : Bytes → Bytes × Bytes
line_of [] = ([], [])
line_of (c ∷ cs) =
    let (line, rest) = line_of cs in if c == b'\n' then ([], cs) else (c ∷ line, rest)

-- `handle_read_headers`: what is left behind the empty line. The fuel is one more than the length
-- of the text, since each line takes at least one byte.
unfoldable pub skip_headers : ℕ → Bytes → Bytes
unfolding line_of
skip_headers zero text = text
skip_headers (suc fuel) [] = []
skip_headers (suc fuel) (c ∷ cs) =
    let (line, rest) = line_of (c ∷ cs) in
    let more = skip_headers fuel rest in if equal line (codes "\r") then rest else more

module _ (extract : Bytes → Option (ℕ × Bytes)) where
  -- `handle_read_status_line`, where `extract` is `stream >> status_code`. After a failure of the
  -- stream the buffers are not used again.
  unfoldable pub read_status_code : Bytes → Option (ℕ × Bytes) → HttpBoost → Stage × HttpBoost
  unfolding line_of
  read_status_code http_version none client = (idle, client)
  read_status_code http_version (some (status_code, [])) client = (idle, client)
  read_status_code http_version (some (status_code, c ∷ cs)) client =
      let client' = record client { response = (line_of (c ∷ cs)).1 } in
      if equal (take 5 http_version) (codes "HTTP/") && status_code == 200
      then (reads_headers, client')
      else (idle, client')

  unfoldable pub handle_read_status_line : HttpBoost → Stage × HttpBoost
  unfolding read_word skip_spaces read_status_code
  handle_read_status_line client =
      let (http_version, rest) = read_word (skip_spaces client.response) in
      elim http_version [
        | [] ↦ (idle, client)
        | (c ∷ cs) ↦ read_status_code (c ∷ cs) (extract rest) client
      ]

  unfoldable pub handle_read_headers : HttpBoost → Stage × HttpBoost
  unfolding skip_headers
  handle_read_headers client =
      let rest = skip_headers (suc (length client.response)) client.response in
      (
        reads_content,
        record client { response = rest; response_data = client.response_data ++ rest },
      )

  unfoldable pub handle_read_content : HttpBoost → Stage × HttpBoost
  handle_read_content client =
      (reads_content, record client { response_data = client.response_data ++ client.response })

  -- The handler of a completed operation.
  unfoldable pub handle : Stage → HttpBoost → Stage × HttpBoost
  unfolding handle_read_status_line handle_read_headers handle_read_content
  handle (resolves server port) client = (connects, client)
  handle connects client = (writes_request, client)
  handle writes_request client = (reads_status, record client { request = [] })
  handle reads_status client = handle_read_status_line client
  handle reads_headers client = handle_read_headers client
  handle reads_content client = handle_read_content client
  handle idle client = (idle, client)

  -- An error ends the client.
  unfoldable pub complete : Completion → Stage → HttpBoost → Stage × HttpBoost
  unfolding handle
  complete (completes bytes) stage client =
      handle stage (record client { response = client.response ++ bytes })
  complete ends stage client = (idle, client)
  complete fails stage client = (idle, client)

  unfoldable pub run : List Completion → Stage → HttpBoost → Stage × HttpBoost
  unfolding complete
  run [] stage client = (stage, client)
  run (c ∷ cs) stage client =
      let (stage', client') = complete c stage client in run cs stage' client'

  -- `lin::post` and `lin::get`, on what the operations complete with.
  unfoldable pub fetch : Bytes → (Bytes → Bytes → Bytes) → List Completion → Bytes
  unfolding handle_request_resolve run
  fetch url build completions =
      let fresh : HttpBoost = record { request = []; response = []; response_data = [] } in
      let (stage, client) = handle_request_resolve url build fresh in
      (run completions stage client).1.response_data
