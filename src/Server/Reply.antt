-- ===== src/Server/Reply.antt =====
-- The responses, paths and content types of Include/http/Source/HttpServer.cpp.
use hzrobot.Prelude.{
  Option, ℕ, ◌+◌, Bool, ◌&&◌, ◌||◌, ◌==◌, leb, if◌then◌else◌, some, none, List, [], ◌∷◌, ◌++◌,
  Bytes, codes, length, drop, map, equal,
}
use mathlib.Core.Option
use hzrobot.Json.Decode.{Parsed, parsed, rejected, thrown, stuck, decode_root}
use hzrobot.Json.Encode.{encode_root}
use hzrobot.Text.Search.{find_last}

-- `size` is the Content-Length.
pub record Response : Type 0 where
  pub status : ℕ
  pub content_type : Bytes
  pub content : Bytes
  pub size : ℕ

abbrev html : Bytes
html = codes "text/html"

unfoldable pub bad_request : Bytes → Response
bad_request why = record { status = 400; content_type = html; content = why; size = length why }

unfoldable pub not_found : Bytes → Response
not_found target =
    let content = codes "The resource '" ++ (target ++ codes "' was not found.") in
    record { status = 404; content_type = html; content = content; size = length content }

unfoldable pub server_error : Bytes → Response
server_error what =
    let content = codes "An error occurred: '" ++ (what ++ codes "'") in
    record { status = 500; content_type = html; content = content; size = length content }

-- What decoding a JSON text and encoding the root gives; `none` is an exception of the decoder. A
-- text that is refused leaves the root as far as it was read.
unfoldable pub recoded : Parsed → Option Bytes
recoded (parsed root rest) = some (encode_root root)
recoded (rejected root) = some (encode_root root)
recoded thrown = none
recoded stuck = none

unfoldable pub json_text : Bytes → Option Bytes
json_text [] = some []
json_text (c ∷ cs) = recoded (decode_root (c ∷ cs))

unfoldable pub json_response : Bytes → Response
json_response content = record {
  status = 200;
  content_type = codes "application/json";
  content = content;
  size = length content;
}

unfoldable pub comm_response : Bytes → Option Response
unfolding json_text
comm_response what = Option.map json_response (json_text what)

-- Without the last character, if that is the separator.
strip_separator : Bytes → Bytes
strip_separator [] = []
strip_separator (c ∷ []) = if c == b'/' then [] else c ∷ []
strip_separator (c ∷ d ∷ cs) = c ∷ strip_separator (d ∷ cs)

unfoldable pub path_cat : Bytes → Bytes → Bytes
unfolding strip_separator
path_cat [] path = path
path_cat (c ∷ cs) path = strip_separator (c ∷ cs) ++ path

-- ASCII `tolower`.
unfoldable pub lower : ℕ → ℕ
lower c = if leb b'A' c && leb c b'Z' then c + 32 else c

-- `beast::iequals`
unfoldable pub iequals : Bytes → Bytes → Bool
unfolding lower
iequals a b = equal (map lower a) (map lower b)

-- The text from the last dot on.
unfoldable pub extension : Bytes → Bytes
extension path = elim (find_last (codes ".") path) [ none ↦ [] | some pos ↦ drop pos path ]

first_type : Bytes → List (Bytes × Bytes) → Bytes
first_type ext [] = codes "application/text"
first_type ext ((e, t) ∷ rest) =
    let later = first_type ext rest in if iequals ext e then t else later

abbrev mime_types : List (Bytes × Bytes)
mime_types =
    (codes ".htm", codes "text/html")
    ∷ (codes ".html", codes "text/html")
    ∷ (codes ".php", codes "text/html")
    ∷ (codes ".css", codes "text/css")
    ∷ (codes ".txt", codes "text/plain")
    ∷ (codes ".js", codes "application/javascript")
    ∷ (codes ".json", codes "application/json")
    ∷ (codes ".xml", codes "application/xml")
    ∷ (codes ".swf", codes "application/x-shockwave-flash")
    ∷ (codes ".flv", codes "video/x-flv")
    ∷ (codes ".png", codes "image/png")
    ∷ (codes ".jpe", codes "image/jpeg")
    ∷ (codes ".jpeg", codes "image/jpeg")
    ∷ (codes ".jpg", codes "image/jpeg")
    ∷ (codes ".gif", codes "image/gif")
    ∷ (codes ".bmp", codes "image/bmp")
    ∷ (codes ".ico", codes "image/vnd.microsoft.icon")
    ∷ (codes ".tiff", codes "image/tiff")
    ∷ (codes ".tif", codes "image/tiff")
    ∷ (codes ".svg", codes "image/svg+xml")
    ∷ (codes ".svgz", codes "image/svg+xml")
    ∷ []

unfoldable pub mime_type : Bytes → Bytes
unfolding first_type extension iequals
mime_type path = first_type (extension path) mime_types

abbrev pub is_space : ℕ → Bool
is_space c = c == b' ' || leb 9 c && leb c 13

word : Bytes → Bytes
word [] = []
word (c ∷ cs) = let rest = c ∷ word cs in if is_space c then [] else rest

-- `transstring`: a stream reads the first word of the text.
unfoldable pub first_word : Bytes → Bytes
unfolding word
first_word [] = []
first_word (c ∷ cs) = let skipped = first_word cs in if is_space c then skipped else word (c ∷ cs)
