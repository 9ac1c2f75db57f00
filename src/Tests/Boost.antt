-- ===== src/Tests/Boost.antt =====
-- URLs, requests and a response of the client on Boost.Asio.
use hzrobot.Prelude.{
  ℕ, true, Option, some, List, [], ◌∷◌, ◌++◌, Bytes, codes, equal, drop, ◌≡◌, refl, arith,
}
use hzrobot.Text.Search.{starts_with, find_first, find}
use hzrobot.Boost.{parse_url, json_pos_begin, json_of, path_of, build_get_request}
use hzrobot.Boost.Handlers.{
  HttpBoost, reads_headers, Completion, completes, ends, line_of, skip_headers, handle, complete,
  run, fetch, handle_request_resolve, read_word, skip_spaces, isspace, read_status_code,
  handle_read_status_line, handle_read_headers,
}
use hzrobot.Boost.Handlers.Content.{arrivals, run-grown}
use hzrobot.Boost.Parse.{Parts, url_text, parse_url-text}

abbrev parts : Parts
parts = record {
  secure = true;
  server = codes "host";
  port = some (codes "8080");
  path = some (codes "a/b");
}

parse_url-text_example :
    parse_url (url_text parts)
    ≡ some (record { server = codes "host"; port = codes "8080"; path = codes "/a/b" })
parse_url-text_example = parse_url-text parts (ground arith) (ground arith) (ground arith)

-- A path without a list is sent as the content as well.
json_without_list : json_of (codes "/a") ≡ codes "/a"
unfolding json_of json_pos_begin find find_first starts_with
json_without_list = refl

json_with_list : json_of (codes "/a[x]") ≡ codes "x"
unfolding json_of json_pos_begin find find_first starts_with
json_with_list = refl

path_with_list : path_of (codes "/a[x]") ≡ codes "/a"
unfolding path_of json_pos_begin find find_first starts_with
path_with_list = refl

abbrev client : HttpBoost
client = record { request = []; response = codes "H: 1\r\n"; response_data = [] }

abbrev extract : Bytes → Option (ℕ × Bytes)
extract text = some (200, drop 4 text)

headers : skip_headers 12 (codes "H: 1\r\n\r\none") ≡ codes "one"
unfolding skip_headers line_of equal
headers = refl

abbrev pieces : List Completion
pieces = completes (codes "\r\none") ∷ arrivals (codes "two" ∷ [])

run-grown_example :
    (run extract pieces reads_headers client).1.response_data
    ≡ [] ++ (codes "one" ++ codes "onetwo")
run-grown_example =
    run-grown extract (codes "\r\none") (codes "one") (codes "two" ∷ []) client headers

abbrev completions : List Completion
completions =
    completes []
    ∷ completes []
    ∷ completes []
    ∷ completes (codes "HTTP/1.0 200 OK\r\n")
    ∷ completes (codes "\r\none")
    ∷ ends
    ∷ []

-- A response that arrives with its headers is read as it is.
fetched : fetch extract (url_text parts) build_get_request completions ≡ codes "one"
unfolding fetch run complete handle handle_request_resolve handle_read_status_line
    handle_read_headers read_status_code read_word skip_spaces isspace line_of skip_headers equal
fetched = refl
