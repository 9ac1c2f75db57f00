-- ===== src/Http/Request.antt =====
-- `request` of Include/http/hpp/http_parser.hpp.
use hzrobot.Prelude.{
  ℕ, zero, suc, ◌+◌, ◌-◌, Bool, true, false, ◌||◌, leb, if◌then◌else◌, Option, some, none, List, [],
  ◌∷◌, ◌++◌, Bytes, codes, length, drop, take, equal,
}
use hzrobot.Text.Search.{find_first}
use hzrobot.Http.Message.{
  Entry, HttpRequest, Numbers, Header, refused, cut, crlf, entries_loop, header_stop, encode_entry,
  encode_entrys, encode_body, is_empty_text,
}

-- An entry of a request.
unfoldable pub add_request : Numbers → HttpRequest → Bytes → Bytes → HttpRequest
add_request numbers req key value =
    if equal key (codes "Content-Length")
    then record req { content_length = numbers.to_uint64 value }
    else if equal key (codes "Host")
    then record req { host = value }
    else record req { entrys = req.entrys ++ (key, value) ∷ [] }

unfoldable pub has_key : Bytes → List Entry → Bool
has_key key [] = false
has_key key ((k, v) ∷ rest) = let later = has_key key rest in if equal key k then true else later

-- `emplace`: an entry that is there stays.
unfoldable pub emplace_parameter : Bytes → Bytes → List Entry → List Entry
emplace_parameter key value ps = if has_key key ps then ps else ps ++ (key, value) ∷ []

or_length : Bytes → Option ℕ → ℕ
or_length r none = length r
or_length r (some k) = k

-- `parameters.substr(k_pos + 1, pa_pos - k_pos - 1)`: a count that wraps around takes the rest.
unfoldable pub parameter_value : ℕ → ℕ → Bytes → Bytes
parameter_value pa k r =
    let behind = drop (k + 1) r in if leb (k + 1) pa then take (pa - (k + 1)) behind else behind

add_parameter : ℕ → Bytes → Option ℕ → List Entry → List Entry
add_parameter pa r none ps = ps
add_parameter pa r (some k) ps = emplace_parameter (take k r) (parameter_value pa k r) ps

-- The loop over the parameters on the text from `cost_len` on, whose length is enough fuel.
unfoldable pub parameters_loop : ℕ → Bytes → List Entry → List Entry
unfolding or_length add_parameter emplace_parameter
parameters_loop zero r ps = ps
parameters_loop (suc fuel) [] ps = ps
parameters_loop (suc fuel) (c ∷ cs) ps =
    let r = c ∷ cs in
    let pa = or_length r (find_first (codes "&") r) in
    parameters_loop fuel (drop (pa + 1) r) (add_parameter pa r (find_first (codes "=") r) ps)

with_parameters : HttpRequest → Option (Bytes × Bytes) → HttpRequest
with_parameters req none = req
with_parameters req (some r) = record req {
  url = r.0;
  url_parameters = parameters_loop (length r.1) r.1 req.url_parameters;
}

request_version : Numbers → ℕ → HttpRequest → Option (Bytes × Bytes) → Header HttpRequest
unfolding add_request
request_version numbers stop req none = refused req
request_version numbers stop req (some r) =
    entries_loop (add_request numbers) (suc (length r.1)) stop (record req { version = r.0 }) r.1

request_url : Numbers → ℕ → HttpRequest → Option (Bytes × Bytes) → Header HttpRequest
unfolding request_version with_parameters
request_url numbers stop req none = refused req
request_url numbers stop req (some r) =
    let req' = with_parameters (record req { url = r.0 }) (cut (codes "?") r.0) in
    request_version numbers stop req' (cut crlf r.1)

request_method : Numbers → ℕ → HttpRequest → Option (Bytes × Bytes) → Header HttpRequest
unfolding request_url
request_method numbers stop req none = refused req
request_method numbers stop req (some r) =
    request_url numbers stop (record req { method = r.0 }) (cut (codes " ") r.1)

-- `request::decode_header` on the text from `data_` on.
unfoldable pub decode_request : Numbers → HttpRequest → Bytes → Header HttpRequest
unfolding request_method header_stop
decode_request numbers req text = elim (find_first (codes "\r\n\r\n") text) [
  | none ↦ refused req
  | some header_end ↦
      request_method numbers (header_stop text header_end) req (cut (codes " ") text)
]

unfoldable pub content_line : Bytes → Bytes
content_line [] = []
content_line (c ∷ cs) = codes "Content-Type: " ++ ((c ∷ cs) ++ crlf)

-- `none` is `false`.
unfoldable pub encode_request : Numbers → HttpRequest → Option Bytes
unfolding content_line encode_entrys encode_entry encode_body
encode_request numbers req =
    if is_empty_text req.method || is_empty_text req.url || is_empty_text req.version
    then none
    else some (
        req.method
        ++ (codes " "
            ++ (req.url
                ++ (codes " "
                    ++ (req.version
                        ++ (crlf
                            ++ (content_line req.content_type
                                ++ (codes "Accept: */* \r\n"
                                    ++ (codes "Host: "
                                        ++ (req.host
                                            ++ (crlf
                                                ++ (encode_entrys req.entrys
                                                    ++ encode_body numbers req.body))))))))))))

unfoldable pub clear_request : HttpRequest → HttpRequest
clear_request req = record req { content_length = 0; entrys = []; url_parameters = [] }
