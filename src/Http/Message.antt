-- ===== src/Http/Message.antt =====
-- Include/http/hpp/http_parser.hpp: requests and responses, read and written. The reading works on
-- C strings: a text here is what stands before the first NUL.
use hzrobot.Prelude.{
  ℕ, zero, suc, ◌+◌, ◌-◌, Bool, true, false, ◌==◌, ltb, if◌then◌else◌, Option, some, none, List, [],
  ◌∷◌, ◌++◌, Bytes, codes, length, drop, take,
}
use hzrobot.Text.Search.{find_first}

-- `entry_t`: a key and a value.
abbrev pub Entry : Type 0
Entry = Bytes × Bytes

pub record HttpRequest : Type 0 where
  pub version : Bytes
  pub content_type : Bytes
  pub entrys : List Entry
  pub content_length : ℕ
  pub body : Bytes
  pub method : Bytes
  pub host : Bytes
  pub url : Bytes
  pub url_parameters : List Entry

pub record HttpResponse : Type 0 where
  pub version : Bytes
  pub entrys : List Entry
  pub content_length : ℕ
  pub body : Bytes
  pub status_code : ℕ
  pub status_desc : Bytes
  pub is_chunk : Bool

-- What the C library makes of texts and numbers: `(uint64)atoll`, `(uint16)atoi`, and `snprintf`
-- with `%lu` and `%u`.
pub record Numbers : Type 0 where
  pub to_uint64 : Bytes → ℕ
  pub to_status : Bytes → ℕ
  pub print : ℕ → Bytes

-- The message as far as it was read; `reads_null` is the use of a null pointer from `strstr`.
pub data Header (M : Type 0) : Type 0 where
  decoded : M → Header M
  refused : M → Header M
  reads_null : Header M

unfoldable pub status_in : ℕ → List (ℕ × Bytes) → Bytes
status_in status [] = codes "unknown"
status_in status ((code, desc) ∷ rest) =
    let later = status_in status rest in if status == code then desc else later

abbrev pub desc_map : List (ℕ × Bytes)
desc_map =
    (101, codes "Switching Protocols")
    ∷ (200, codes "OK")
    ∷ (201, codes "Created")
    ∷ (202, codes "Accepted")
    ∷ (203, codes "Non-Authoritative Information (for DNS)")
    ∷ (204, codes "No Content")
    ∷ (205, codes "Reset Content")
    ∷ (206, codes "Partial Content")
    ∷ (300, codes "Multiple Choices")
    ∷ (301, codes "Moved Permanently")
    ∷ (302, codes "Moved Temporarily")
    ∷ (303, codes "See Other")
    ∷ (304, codes "Not Modified")
    ∷ (305, codes "Use Proxy")
    ∷ (307, codes "Redirect Keep Verb")
    ∷ (400, codes "Bad Request")
    ∷ (401, codes "Unauthorized")
    ∷ (402, codes "Payment Required")
    ∷ (403, codes "Forbidden")
    ∷ (404, codes "Not Found")
    ∷ (405, codes "Bad Request")
    ∷ (406, codes "Not Acceptable")
    ∷ (407, codes "Proxy Authentication Required")
    ∷ (408, codes "Request Timed-Out")
    ∷ (409, codes "Conflict")
    ∷ (410, codes "Gone")
    ∷ (411, codes "Length Required")
    ∷ (412, codes "Precondition Failed")
    ∷ (413, codes "Request Entity Too Large")
    ∷ (414, codes "Request, URI Too Large")
    ∷ (415, codes "Unsupported Media Type")
    ∷ (500, codes "Internal Server Error")
    ∷ (501, codes "Not Implemented")
    ∷ (502, codes "Bad Gateway")
    ∷ (503, codes "Server Unavailable")
    ∷ (504, codes "Gateway Timed-Out")
    ∷ (505, codes "HTTP Version not supported")
    ∷ []

unfoldable pub get_status_code_desc : ℕ → Bytes
unfolding status_in
get_status_code_desc status = status_in status desc_map

-- `strstr`: what stands before the text, and what behind it.
unfoldable pub cut : Bytes → Bytes → Option (Bytes × Bytes)
cut des text = elim (find_first des text) [
  | none ↦ none
  | some k ↦ some (take k text, drop (k + length des) text)
]

abbrev pub crlf : Bytes
crlf = codes "\r\n"

module _ {M : Type 0} (add : M → Bytes → Bytes → M) where
  unfoldable pub after_value :
      (M → Bytes → Header M) → M → Bytes → Option (Bytes × Bytes) → Header M
  after_value next m key none = reads_null
  after_value next m key (some r) = next (add m key r.0) r.1

  unfoldable pub after_key : (M → Bytes → Header M) → M → Option (Bytes × Bytes) → Header M
  unfolding after_value
  after_key next m none = refused m
  after_key next m (some r) = after_value next m r.0 (cut crlf r.1)

  -- The loop over the entries, from the position where `rest` begins, while that is before
  -- `header_end + 2`; a round reads at least one byte of it.
  unfoldable pub entries_loop : ℕ → (stop : ℕ) → M → Bytes → Header M
  unfolding after_key
  entries_loop zero stop m rest = decoded m
  entries_loop (suc fuel) stop m rest =
      let more = after_key (entries_loop fuel stop) m (cut (codes ": ") rest) in
      if ltb stop (length rest) then more else decoded m

-- Where `header_end + 2` is, counted from the end of the text.
unfoldable pub header_stop : Bytes → ℕ → ℕ
header_stop text header_end = length text - (header_end + 2)

unfoldable pub encode_entry : Entry → Bytes
encode_entry entry = entry.0 ++ (codes ": " ++ (entry.1 ++ crlf))

unfoldable pub encode_entrys : List Entry → Bytes
encode_entrys [] = []
encode_entrys (entry ∷ rest) = encode_entry entry ++ encode_entrys rest

-- The line with the length of the body, the empty line and the body.
unfoldable pub encode_body : Numbers → Bytes → Bytes
encode_body numbers [] = crlf
encode_body numbers (c ∷ cs) =
    codes "Content-Length: " ++ (numbers.print (length (c ∷ cs)) ++ (crlf ++ (crlf ++ c ∷ cs)))

abbrev pub is_empty_text : Bytes → Bool
is_empty_text [] = true
is_empty_text (c ∷ cs) = false
