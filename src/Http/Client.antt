-- ===== src/Http/Client.antt =====
-- `client_base` and `sync_client` of Include/http/hpp/http_client.hpp. The socket calls and the
-- asynchronous connection are code of other parts.
use hzrobot.Prelude.{
  ℕ, zero, suc, ◌+◌, ◌-◌, ◌*◌, ◌%◌, ◌^◌, Bool, true, false, ◌&&◌, ◌||◌, ◌==◌, ltb, leb,
  if◌then◌else◌, Option, some, none, List, [], ◌∷◌, ◌++◌, Bytes, codes, length, drop, take, c_str,
}
use hzrobot.Text.Search.{find, contains}
use hzrobot.Text.Edit.{tolower}
use hzrobot.Http.Message.{
  HttpRequest, HttpResponse, Numbers, Header, decoded, refused, reads_null, crlf,
}
use hzrobot.Http.Request.{encode_request}
use hzrobot.Http.Response.{decode_response, clear_response}

-- The digits of `htoi`, with every letter among them.
abbrev pub is_htoi : ℕ → Bool
is_htoi c = leb b'0' c && leb c b'9' || leb b'a' c && leb c b'z' || leb b'A' c && leb c b'Z'

unfoldable pub htoi_digit : ℕ → ℕ
unfolding tolower
htoi_digit c = if ltb b'9' (tolower c) then 10 + tolower c - b'a' else tolower c - b'0'

-- An `int` of 32 bits, as the machine wraps it around.
unfoldable pub htoi_loop : ℕ → Bytes → ℕ
unfolding htoi_digit
htoi_loop n [] = n
htoi_loop n (c ∷ cs) =
    let more = htoi_loop ((16 * n + htoi_digit c) % 2 ^ 32) cs in if is_htoi c then more else n

unfoldable pub htoi : Bytes → ℕ
htoi (zero' ∷ x ∷ cs) =
    if zero' == b'0' && (x == b'x' || x == b'X')
    then htoi_loop 0 cs
    else htoi_loop 0 (zero' ∷ x ∷ cs)
htoi s = htoi_loop 0 s

-- An `int` as a `size_t`: a negative one is extended by ones.
unfoldable pub as_size : ℕ → ℕ
as_size n = if ltb n (2 ^ 31) then n else n + (2 ^ 64 - 2 ^ 32)

-- How the loop over the chunks ends, with `pos` and the body.
pub data Chunks : Type 0 where
  all_chunks more_chunks : (pos : ℕ) (body : Bytes) → Chunks
  -- A chunk is read from behind the end of the buffer.
  overruns : Chunks

unfoldable pub chunk_at : (ℕ → Bytes → Chunks) → Bytes → (pos len : ℕ) → Bytes → Chunks
chunk_at next buf pos len body =
    let behind = (pos + len + 2) % 2 ^ 64 in
    let appended = next behind (body ++ take len (drop pos buf)) in
    if len == 0
    then all_chunks behind body
    else if ltb (length buf) behind
    then more_chunks pos body
    else if ltb (length buf) (pos + len)
    then overruns
    else appended

-- The loop over the chunks; a round passes an end of line, so the length of the buffer is enough
-- fuel.
unfoldable pub chunks_loop : ℕ → Bytes → ℕ → Bytes → Chunks
unfolding chunk_at htoi as_size
chunks_loop zero buf pos body = more_chunks pos body
chunks_loop (suc fuel) buf pos body = elim (find buf crlf pos) [
  | none ↦ more_chunks pos body
  | some flag ↦
      chunk_at (chunks_loop fuel buf) buf (flag + 2)
        (as_size (htoi (c_str (take (flag - pos) (drop pos buf))))) body
]

pub data DecodeState : Type 0 where
  e_decode_header e_decode_body e_decode_done : DecodeState

pub record Client : Type 0 where
  pub sync_mode : Bool
  pub decode_step : DecodeState
  pub buf : Bytes
  pub buf_pos : ℕ
  pub response : HttpResponse

-- What `recv_callback` does: its value, with the responses that were handled on the way.
pub data Received : Type 0 where
  returns : Bool → Client → List HttpResponse → Received
  crashes : Received

abbrev pub handled : HttpResponse → Received → Received
handled res crashes = crashes
handled res (returns ok client done) = returns ok client (res ∷ done)

-- Behind a body: a synchronous client is done, another one handles the response and goes on.
unfoldable pub body_done : (Client → Received) → Client → Received
body_done next client =
    let more = handled client.response (next (record client { decode_step = e_decode_header })) in
    if client.sync_mode
    then returns true (record client { decode_step = e_decode_done }) []
    else more

unfoldable pub chunks_done : (Client → Received) → Client → Chunks → Received
unfolding body_done
chunks_done next client overruns = crashes
chunks_done next client (more_chunks pos body) =
    returns true
      (record client { buf_pos = pos; response = record client.response { body = body } }) []
chunks_done next client (all_chunks pos body) =
    body_done next
      (record client { buf_pos = pos; response = record client.response { body = body } })

-- The branch of `e_decode_body`.
unfoldable pub body_step : (Client → Received) → Client → Received
unfolding chunks_done
body_step next client =
    let rest = drop client.buf_pos client.buf in
    let size = client.response.content_length in
    let whole = body_done next (record client {
      buf_pos = client.buf_pos + size;
      response = record client.response { body = rest };
    }) in
    let chunked =
      chunks_done next client
        (chunks_loop (suc (length client.buf)) client.buf client.buf_pos []) in
    if client.response.is_chunk
    then chunked
    else if ltb ((length client.buf + 2 ^ 64 - client.buf_pos) % 2 ^ 64) size
    then returns true client []
    else whole

header_done : (Client → Received) → Client → ℕ → Header HttpResponse → Received
header_done next client behind reads_null = crashes
header_done next client behind (refused res) = returns false (record client { response = res }) []
header_done next client behind (decoded res) =
    body_step next (record client { response = res; buf_pos = behind; decode_step = e_decode_body })

-- The branch of the other two steps.
unfoldable pub header_step : Numbers → (Client → Received) → Client → Received
unfolding header_done
header_step numbers next client = elim (find client.buf (codes "\r\n\r\n") client.buf_pos) [
  | none ↦ returns (ltb ((length client.buf + 2 ^ 64 - client.buf_pos) % 2 ^ 64) 1024) client []
  | some pos ↦
      header_done next client (pos + 4)
        (decode_response numbers client.response (c_str (drop client.buf_pos client.buf)))
]

step_of : Numbers → (Client → Received) → Client → DecodeState → Received
step_of numbers next client e_decode_body = body_step next client
step_of numbers next client _ = header_step numbers next client

-- The loop of `recv_callback`. Another round follows only the handling of a response, whose
-- header took at least four bytes.
unfoldable pub recv_loop : Numbers → ℕ → Client → Received
unfolding step_of
recv_loop numbers zero client = crashes
recv_loop numbers (suc fuel) client =
    let more = step_of numbers (recv_loop numbers fuel) client client.decode_step in
    if length client.buf == client.buf_pos
    then returns true (record client { buf = []; buf_pos = 0 }) []
    else more

unfoldable pub recv_callback : Numbers → Client → Bytes → Received
recv_callback numbers client data_ =
    let client' = record client { buf = client.buf ++ data_ } in
    recv_loop numbers (suc (length client'.buf)) client'

-- The address that `reset_socket` connects to.
unfoldable pub socket_addr : Bytes → Bytes
socket_addr host = if contains (codes ":") host then host else host ++ codes ":80"

-- The loop over `send`, which gives the whole of the data to every call; the numbers are what the
-- calls return, 0 for an error. `none` stands for more calls than the list has.
unfoldable pub send_loop : (size len : ℕ) → List ℕ → Option Bool
send_loop size zero rcs = some true
send_loop size (suc len) [] = none
send_loop size (suc len) (rc ∷ rcs) =
    let next = send_loop size ((suc len + 2 ^ 64 - rc) % 2 ^ 64) rcs in
    if rc == 0 then some false else next

-- How often that loop calls `send`.
unfoldable pub send_calls : (size len : ℕ) → List ℕ → ℕ
send_calls size zero rcs = 0
send_calls size (suc len) [] = 1
send_calls size (suc len) (rc ∷ rcs) =
    let next = send_calls size ((suc len + 2 ^ 64 - rc) % 2 ^ 64) rcs in
    if rc == 0 then 1 else suc next

-- The value of `call`, with the response that the client is left with, or a crash.
pub data Called : Type 0 where
  succeeds fails : HttpResponse → Called
  crashed : Called

abbrev pub is_done : DecodeState → Bool
is_done e_decode_done = true
is_done _ = false

after_recv : (Client → Called) → Received → Called
after_recv next crashes = crashed
after_recv next (returns false client done) = fails client.response
after_recv next (returns true client done) =
    let more = next client in if is_done client.decode_step then succeeds client.response else more

-- The loop over `recv`, on the pieces that it delivers before it fails.
unfoldable pub call_loop : Numbers → Client → List Bytes → Called
unfolding after_recv
call_loop numbers client [] = fails client.response
call_loop numbers client (piece ∷ pieces) =
    after_recv (λ c. call_loop numbers c pieces) (recv_callback numbers client piece)

-- What the network does with a call: whether the connection to an address is made, what the calls
-- of `send` return, and the pieces that `recv` delivers.
pub record Network : Type 0 where
  pub connects : Bytes → Bool
  pub sends : List ℕ
  pub delivers : List Bytes

sent : Numbers → Network → HttpResponse → Option Bool → Option Called
sent numbers net res none = none
sent numbers net res (some false) = some (fails res)
sent numbers net res (some true) = some (
    call_loop numbers
      (record {
        sync_mode = true;
        decode_step = e_decode_header;
        buf = [];
        buf_pos = 0;
        response = clear_response res;
      })
      net.delivers)

encoded : Numbers → Network → HttpRequest → HttpResponse → Option Bytes → Option Called
unfolding sent
encoded numbers net req res none = some (fails res)
encoded numbers net req res (some text) =
    if net.connects (socket_addr req.host)
    then sent numbers net res (send_loop (length text) (length text) net.sends)
    else some (fails res)

-- `sync_client::call`; `none` where the network does not say what a call of `send` returns.
unfoldable pub call : Numbers → Network → HttpRequest → HttpResponse → Option Called
unfolding encoded
call numbers net req res = encoded numbers net req res (encode_request numbers req)
