-- ===== src/Task/Service.antt =====
-- The calls of `PhotoTask::execute` on the HTTP client and the JSON decoder: what a reply of the
-- photo service comes to. One client serves all calls of a task, so each call finds the response
-- that the call before left.
pub mod Replies
use hzrobot.Prelude.{
  ℕ, zero, suc, ◌+◌, Bool, true, false, Option, some, none, List, [], ◌∷◌, ◌++◌, Bytes, codes,
}
use mathlib.Core.Option
use hzrobot.Json.{Node, get_value, find_kv_child}
use hzrobot.Json.Decode.{Parsed, parsed, rejected, thrown, stuck, decode_root}
use hzrobot.Http.Message.{HttpRequest, HttpResponse, Numbers}
use hzrobot.Http.Client.{Called, succeeds, fails, crashed, Network, call}
use hzrobot.Task.{Reply, Attempt, call_failed, call_threw, call_crashed, replied}

-- `find_kv_child(...)` on what another lookup gave.
unfoldable pub child_of : Bytes → Option Node → Option Node
child_of key none = none
child_of key (some n) = find_kv_child key n

unfoldable pub number_of : (Bytes → ℕ) → Option Node → Option ℕ
number_of atoi none = none
number_of atoi (some n) = some (atoi (get_value n))

unfoldable pub reply_of : (Bytes → ℕ) → Bytes → Node → Reply
unfolding child_of number_of
reply_of atoi text root = record {
  body = text;
  tablenum = number_of atoi (child_of (codes "tablenum") (find_kv_child (codes "request") root));
  successnum = number_of atoi (find_kv_child (codes "successnum") root);
}

-- The result of decoding is not looked at; an exception of the decoder is caught by the task.
unfoldable pub attempt_in : (Bytes → ℕ) → Bytes → Parsed → Attempt
attempt_in atoi text (parsed root rest) = replied (reply_of atoi text root)
attempt_in atoi text (rejected root) = replied (reply_of atoi text root)
attempt_in atoi text thrown = call_threw
attempt_in atoi text stuck = call_threw

unfoldable pub attempt_of : (Bytes → ℕ) → Option Called → Attempt
unfolding attempt_in
attempt_of atoi (some (succeeds res)) = attempt_in atoi res.body (decode_root res.body)
attempt_of atoi (some (fails res)) = call_failed
attempt_of atoi (some crashed) = call_crashed
attempt_of atoi none = call_crashed

-- The response that a call leaves in the client.
unfoldable pub left_response : HttpResponse → Option Called → HttpResponse
left_response res (some (succeeds res')) = res'
left_response res (some (fails res')) = res'
left_response res _ = res

module _ (atoi : Bytes → ℕ) (numbers : Numbers) (req : HttpRequest) where
  -- The response before the call with a number, on what the network does in each call.
  unfoldable pub response_before : (ℕ → Network) → HttpResponse → ℕ → HttpResponse
  unfolding left_response
  response_before nets res zero = res
  response_before nets res (suc j) =
      let before = response_before nets res j in
      left_response before (call numbers (nets j) req before)

  -- The attempts of a task, for `photo_execute`.
  unfoldable pub photo_service : (ℕ → Network) → HttpResponse → ℕ → Attempt
  unfolding attempt_of response_before
  photo_service nets res j =
      attempt_of atoi (call numbers (nets j) req (response_before nets res j))
