-- ===== src/Boost.antt =====
-- Include/http/Source/HttpBase.cpp: the parts of a URL and the texts of requests.
pub mod Parse
pub mod Handlers
use hzrobot.Prelude.{
  ℕ, zero, suc, ◌+◌, ◌-◌, Bool, true, false, not, ◌||◌, ◌&&◌, ◌==◌, ltb, leb, if◌then◌else◌, Option,
  some, none, List, [], ◌∷◌, ◌++◌, Bytes, codes, c_str, equal, length, take, drop,
}
use hzrobot.Text.Search.{find}
use mathlib.Core.Option

-- What `parseUrl` gives out.
pub record Url : Type 0 where
  pub server : Bytes
  pub port : Bytes
  pub path : Bytes

abbrev pub is_at_start : Option ℕ → Bool
is_at_start (some zero) = true
is_at_start (some (suc k)) = false
is_at_start none = false

-- `none` is `HTTP_ERROR_HTTP_HEAD`.
unfoldable pub strip_scheme : Bytes → Option Bytes
strip_scheme url =
    if is_at_start (find url (codes "http://") 0)
    then some (drop 7 url)
    else if is_at_start (find url (codes "https://") 0)
    then some (drop 8 url)
    else none

-- The server with its port, and the path.
unfoldable pub split_path : Bytes → Bytes × Bytes
split_path temp_data = elim (find temp_data (codes "/") 0) [
  | none ↦ (temp_data, codes "/")
  | some idx ↦ (take idx temp_data, drop idx temp_data)
]

unfoldable pub split_port : Bytes → Bytes × Bytes
split_port server = elim (find server (codes ":") 0) [
  | none ↦ (server, codes "80")
  | some idx ↦ (take idx server, drop (suc idx) server)
]

abbrev pub url_of : Bytes × Bytes → Bytes → Url
url_of (server, port) path = record { server = server; port = port; path = path }

unfoldable pub parse_url : Bytes → Option Url
unfolding strip_scheme split_path split_port
parse_url url =
    Option.map
      (λ (temp_data : Bytes). url_of (split_port (split_path temp_data).0) (split_path temp_data).1)
      (strip_scheme url)

-- `json_pos_begin`, which is 0 where there is no '['.
unfoldable pub json_pos_begin : Bytes → ℕ
json_pos_begin path = elim (find path (codes "[") 0) [ none ↦ 0 | some k ↦ suc k ]

-- `temp_path.substr(json_pos_begin, temp_json_lenth)`; a negative length is one to the end.
unfoldable pub json_of : Bytes → Bytes
unfolding json_pos_begin
json_of path =
    let begin = json_pos_begin path in
    elim (find path (codes "]") 0) [
      | none ↦ drop begin path
      | some end ↦ if ltb end begin then drop begin path else take (end - begin) (drop begin path)
    ]

-- `temp_path.substr(0, json_pos_begin - 1)`, the whole for -1.
unfoldable pub path_of : Bytes → Bytes
unfolding json_pos_begin
path_of path = elim (json_pos_begin path) [ zero ↦ path | suc k ↦ take k path ]

module _ (print : ℕ → Bytes) where
  unfoldable pub build_post_request : Bytes → Bytes → Bytes
  unfolding json_of path_of
  build_post_request server path =
      codes "POST "
      ++ (c_str (path_of path)
          ++ (codes " HTTP/1.0\r\n"
              ++ (codes "Host: "
                  ++ (c_str server
                      ++ (codes "\r\n"
                          ++ (codes "Content-Length: "
                              ++ (print (length (json_of path))
                                  ++ (codes "\r\n"
                                      ++ (codes
                                            "Content-Type: application/x-www-form-urlencoded\r\n"
                                          ++ (codes "Accept: */*\r\n"
                                              ++ (codes "Connection: close\r\n\r\n"
                                                  ++ c_str (json_of path))))))))))))

unfoldable pub build_get_request : Bytes → Bytes → Bytes
build_get_request server path =
    codes "GET "
    ++ (c_str path
        ++ (codes " HTTP/1.0\r\n"
            ++ (codes "Host: "
                ++ (c_str server
                    ++ (codes "\r\n"
                        ++ (codes "Accept: */*\r\n" ++ codes "Connection: close\r\n\r\n"))))))
