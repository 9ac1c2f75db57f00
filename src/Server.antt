-- ===== src/Server.antt =====
-- `handle_request` of Include/http/Source/HttpServer.cpp: what the server does with one request,
-- and what it answers. The parsing of requests and the sending of responses are Boost.Beast's.
pub mod Reply
pub mod Upload
pub mod Session
pub mod Guard
pub mod Routes
pub mod Sending
pub mod Forwarding
use hzrobot.Prelude.{
  ℕ, zero, suc, ◌+◌, ◌-◌, Bool, true, false, not, ◌&&◌, ◌||◌, ◌==◌, if◌then◌else◌, Option, some,
  none, List, [], ◌∷◌, ◌++◌, Bytes, codes, length, equal,
}
use hzrobot.Http.Message.{HttpRequest, HttpResponse, Numbers}
use hzrobot.Http.Request.{encode_request}
use hzrobot.Http.Client.{Called, succeeds, fails, crashed, Network, call, send_calls, socket_addr}
use hzrobot.Json.{Node, get_value, find_kv_child}
use hzrobot.Json.Decode.{Parsed, parsed, rejected, decode_root}
use hzrobot.Text.Search.{contains}
use Reply.{
  Response, bad_request, not_found, server_error, json_response, comm_response, path_cat, mime_type,
  first_word,
}
use Upload.{Uploaded, Ending, refused, thrown, finished, config_upload}

pub data Verb : Type 0 where
  post get head delete_ put other : Verb

-- The parts of a request that the handler reads; `content_type` is empty where the header is
-- absent.
pub record Request : Type 0 where
  pub verb : Verb
  pub target : Bytes
  pub content_type : Bytes
  pub body : Bytes

-- What the handler sets on the `sync_client` that forwards a request to the robot.
pub record Forward : Type 0 where
  pub host : Bytes
  pub content_type : Bytes
  pub method : Bytes
  pub url : Bytes
  pub body : Bytes

pub data Effect : Type 0 where
  -- A call of `send` is given the request to the robot.
  forwards : Forward → Effect
  logs_post : ℕ → Effect
  starts_task : Effect
  loads_photo_config loads_server_config loads_mysql_config : Effect
  writes_config : (name content : Bytes) → Effect
  writes_data : Bytes → Effect

pub data Outcome : Type 0 where
  responds : List Effect → Response → Outcome
  -- An exception leaves the handler, or it reads through a null pointer.
  throws reads_null : List Effect → Outcome
  -- The HTTP client crashes, or waits for ever.
  crashes waits : List Effect → Outcome

-- `find_kv_child("ACTION")` of the decoded body: an exception of the decoder, a null pointer, or
-- the value of `atoi` on it.
pub data Action : Type 0 where
  unreadable missing : Action
  mode : ℕ → Action

pub data File : Type 0 where
  opened : Bytes → File
  no_such_file : File
  failed : Bytes → File

-- What the handler asks: the configuration, the network to the robot and its numbers in texts, the
-- C library's `atoi`, whose `int` is its 32 bits, and the file system.
pub record Env : Type 0 where
  pub doc_root : Bytes
  pub robot_ip : Bytes
  pub robot_port : Bytes
  pub numbers : Numbers
  pub network : Network
  pub atoi : Bytes → ℕ
  pub open_file : Bytes → File

-- The first guard of the handler.
unfoldable pub is_known : Verb → Bool
is_known post = true
is_known get = true
is_known head = true
is_known _ = false

-- The second guard, on the target.
unfoldable pub is_illegal : Bytes → Bool
is_illegal [] = true
is_illegal (c ∷ cs) =
    not (c == b'/') || contains (codes "..") (c ∷ cs) || contains (codes "//") (c ∷ cs)

-- The `switch` that sets the method; `default` leaves it empty.
unfoldable pub method_of : Verb → Bytes
method_of post = codes "POST"
method_of get = codes "GET"
method_of delete_ = codes "DELETE"
method_of put = codes "PUT"
method_of _ = []

unfoldable pub forward_of : Env → Request → Forward
unfolding method_of
forward_of env req = record {
  host = env.robot_ip ++ (b':' ∷ env.robot_port);
  content_type = first_word req.content_type;
  method = method_of req.verb;
  url = path_cat [] req.target;
  body = req.body;
}

unfoldable pub comm_outcome : List Effect → Option Response → Outcome
comm_outcome done none = throws done
comm_outcome done (some response) = responds done response

-- The answer to the value of `sync_c.call()`.
unfoldable pub answer_forward : List Effect → Option Called → Outcome
answer_forward done (some (succeeds reply)) = comm_outcome done (comm_response reply.body)
answer_forward done (some (fails reply)) =
    responds done (bad_request (codes "{  \"msg\":\"transmit faild!\"}"))
answer_forward done (some crashed) = crashes done
answer_forward done none = waits done

-- The request of a new `sync_client`, and its response.
abbrev pub client_request : Forward → HttpRequest
client_request fw = record {
  version = codes "HTTP/1.1";
  content_type = fw.content_type;
  entrys = [];
  content_length = 0;
  body = fw.body;
  method = fw.method;
  host = fw.host;
  url = fw.url;
  url_parameters = [];
}

abbrev pub new_response : HttpResponse
new_response = record {
  version = codes "HTTP/1.1";
  entrys = [];
  content_length = 0;
  body = [];
  status_code = 200;
  status_desc = [];
  is_chunk = false;
}

-- The same effect, so many times.
unfoldable pub repeated : ℕ → Effect → List Effect
repeated zero effect = []
repeated (suc n) effect = effect ∷ repeated n effect

-- Each call of `send` that the client makes is given the whole of the request; it makes none where it
-- cannot encode the request or does not connect.
unfoldable pub forward_effects : Network → Forward → Option Bytes → List Effect
forward_effects network fw none = []
forward_effects network fw (some text) =
    if network.connects (socket_addr (client_request fw).host)
    then repeated (send_calls (length text) (length text) network.sends) (forwards fw)
    else []

unfoldable pub call_robot : Env → Forward → Outcome
call_robot env fw =
    answer_forward (forward_effects env.network fw (encode_request env.numbers (client_request fw)))
      (call env.numbers env.network (client_request fw) new_response)

unfoldable pub forward_route : Env → Request → Outcome
forward_route env req = call_robot env (forward_of env req)

-- The `switch` on the mode.
unfoldable pub run_mode : ℕ → List Effect
run_mode m =
    if m == 1
    then loads_photo_config ∷ starts_task ∷ []
    else if m == 2
    then starts_task ∷ []
    else if m == 3
    then starts_task ∷ []
    else []

action_value : (Bytes → ℕ) → Option Node → Action
action_value atoi none = missing
action_value atoi (some child) = mode (atoi (get_value child))

action_in : (Bytes → ℕ) → Parsed → Action
action_in atoi (parsed root rest) = action_value atoi (find_kv_child (codes "ACTION") root)
action_in atoi (rejected root) = action_value atoi (find_kv_child (codes "ACTION") root)
action_in atoi Parsed.thrown = unreadable
action_in atoi Parsed.stuck = unreadable

-- The result of decoding is not looked at.
unfoldable pub action_of : (Bytes → ℕ) → Bytes → Action
unfolding action_in action_value
action_of atoi text = action_in atoi (decode_root text)

-- The last response is `comm_response("")`.
unfoldable pub run_action : Env → Action → Outcome
run_action env unreadable = throws []
run_action env missing = reads_null []
run_action env (mode m) = responds (logs_post m ∷ run_mode m) (json_response [])

unfoldable pub tips_route : Env → Request → Outcome
unfolding run_action run_mode
tips_route env req =
    if not (equal req.content_type (codes "application/json"))
    then responds [] (bad_request (codes "error request"))
    else run_action env (action_of env.atoi req.body)

pub written : Option (Bytes × Bytes) → List Effect
written none = []
written (some (name, content)) = writes_config name content ∷ []

pub end_upload : Env → List Effect → Ending → Outcome
end_upload env done refused = responds done (bad_request (codes "error request"))
end_upload env done thrown = throws done
end_upload env done finished =
    responds (done ++ loads_photo_config ∷ loads_server_config ∷ loads_mysql_config ∷ [])
      (json_response [])

-- The response after the loop, once the configuration is loaded again.
pub after_upload : Env → Uploaded → Outcome
after_upload env u = end_upload env (written u.wrote) u.ending

unfoldable pub configs_route : Env → Request → Bytes → Outcome
unfolding after_upload end_upload written
configs_route env req path =
    if not (
      contains (codes "/mysql_config") path
      || contains (codes "/photo_config") path
      || contains (codes "/server_config") path)
    then responds [] (bad_request (codes "error request"))
    else after_upload env (config_upload req.content_type req.body)

unfoldable pub post_route : Request → Outcome
post_route req =
    if equal req.content_type (codes "application/json")
    then responds [] (bad_request req.target)
    else responds (writes_data req.body ∷ []) (bad_request (codes "POST"))

-- The end of the handler; the flag is the test for a HEAD request.
unfoldable pub file_route : Bool → Bytes → Bytes → File → Outcome
file_route headers_only target path no_such_file = responds [] (not_found target)
file_route headers_only target path (failed message) = responds [] (server_error message)
file_route headers_only target path (opened content) = responds [] (record {
  status = 200;
  content_type = mime_type path;
  content = if headers_only then [] else content;
  size = length content;
})

unfoldable pub is_post : Verb → Bool
is_post post = true
is_post _ = false

unfoldable pub is_get : Verb → Bool
is_get get = true
is_get _ = false

unfoldable pub is_head : Verb → Bool
is_head head = true
is_head _ = false

unfoldable pub route : Env → Request → Bytes → Outcome
route env req path =
    if contains (codes "./api/v2/") path
    then forward_route env req
    else if contains (codes "./robot/tips") path
    then tips_route env req
    else if contains (codes "./robot/configs") path
    then configs_route env req path
    else if is_post req.verb
    then post_route req
    else if is_get req.verb
    then responds [] (bad_request (codes "Get"))
    else file_route (is_head req.verb) req.target path (env.open_file path)

unfoldable pub handle_request : Env → Request → Outcome
handle_request env req =
    if not (is_known req.verb)
    then responds [] (bad_request (codes "Unknown HTTP-method"))
    else if is_illegal req.target
    then responds [] (bad_request (codes "Illegal request-target"))
    else route env req (path_cat env.doc_root req.target)
