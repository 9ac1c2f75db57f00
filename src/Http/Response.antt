-- ===== src/Http/Response.antt =====
-- `response` of Include/http/hpp/http_parser.hpp.
use hzrobot.Prelude.{
  ℕ, suc, true, ◌&&◌, if◌then◌else◌, Option, some, none, [], ◌∷◌, ◌++◌, Bytes, codes, length, equal,
}
use hzrobot.Text.Search.{find_first}
use hzrobot.Http.Message.{
  HttpResponse, Numbers, Header, refused, cut, crlf, entries_loop, header_stop, encode_entry,
  encode_entrys, encode_body, is_empty_text, get_status_code_desc,
}

-- An entry of a response.
unfoldable pub add_response : Numbers → HttpResponse → Bytes → Bytes → HttpResponse
add_response numbers res key value =
    if equal key (codes "Content-Length")
    then record res { content_length = numbers.to_uint64 value }
    else if equal key (codes "Transfer-Encoding") && equal value (codes "chunked")
    then record res { is_chunk = true }
    else record res { entrys = res.entrys ++ (key, value) ∷ [] }

response_desc : Numbers → ℕ → HttpResponse → Option (Bytes × Bytes) → Header HttpResponse
unfolding add_response
response_desc numbers stop res none = refused res
response_desc numbers stop res (some r) =
    entries_loop (add_response numbers) (suc (length r.1)) stop (record res { status_desc = r.0 })
      r.1

response_status : Numbers → ℕ → HttpResponse → Option (Bytes × Bytes) → Header HttpResponse
unfolding response_desc
response_status numbers stop res none = refused res
response_status numbers stop res (some r) =
    response_desc numbers stop (record res { status_code = numbers.to_status r.0 }) (cut crlf r.1)

response_version : Numbers → ℕ → HttpResponse → Option (Bytes × Bytes) → Header HttpResponse
unfolding response_status
response_version numbers stop res none = refused res
response_version numbers stop res (some r) =
    response_status numbers stop (record res { version = r.0 }) (cut (codes " ") r.1)

-- `response::decode_header` on the text from `data_` on.
unfoldable pub decode_response : Numbers → HttpResponse → Bytes → Header HttpResponse
unfolding response_version header_stop
decode_response numbers res text = elim (find_first (codes "\r\n\r\n") text) [
  | none ↦ refused res
  | some header_end ↦
      response_version numbers (header_stop text header_end) res (cut (codes " ") text)
]

unfoldable pub encode_response : Numbers → HttpResponse → Option Bytes
unfolding encode_entrys encode_entry encode_body
encode_response numbers res =
    if is_empty_text res.version
    then none
    else some (
        res.version
        ++ (codes " "
            ++ (numbers.print res.status_code
                ++ (codes " "
                    ++ (get_status_code_desc res.status_code
                        ++ (crlf ++ (encode_entrys res.entrys ++ encode_body numbers res.body)))))))

unfoldable pub clear_response : HttpResponse → HttpResponse
clear_response res = record res { content_length = 0; entrys = [] }
