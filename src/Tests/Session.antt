-- ===== src/Tests/Session.antt =====
-- A session that answers two requests.
use hzrobot.Prelude.{List, Bool, false, [], ◌∷◌, codes, equal, ◌≡◌, refl}
use hzrobot.Text.Search.{contains, find_first, starts_with}
use hzrobot.Server.Reply.{Response, bad_request, path_cat}
use hzrobot.Server.{
  Request, writes_data, delete_, responds, is_known, is_illegal, is_post, post_route, route,
  handle_request,
}
use hzrobot.Server.Session.{
  Session, SessionEvent, reading, request_read, response_written, error, run_session, handle_event,
  on_read, on_write, do_read, fail, send,
}
use hzrobot.Server.Session.Requests.{Answers}
use hzrobot.Tests.Server.{env, tip}

abbrev unknown : Request
unknown = record tip { verb = delete_ }

abbrev note : Request
note = record tip { target = codes "/x"; content_type = []; body = codes "hi" }

unknown-answer :
    handle_request env unknown ≡ responds [] (bad_request (codes "Unknown HTTP-method"))
unfolding handle_request is_known
unknown-answer = refl

note-answer :
    handle_request env note ≡ responds (writes_data (codes "hi") ∷ []) (bad_request (codes "POST"))
unfolding handle_request is_known is_illegal route post_route is_post contains find_first
    starts_with path_cat equal
note-answer = refl

abbrev never : Request → Response → Bool
never req response = false

abbrev fresh : Session
fresh = record { phase = reading; done = []; responses = [] }

-- The second of two requests is answered, but its response cannot be written.
abbrev happened : List SessionEvent
happened = request_read unknown ∷ response_written ∷ request_read note ∷ error ∷ []

-- Its responses are those of both.
both_answered :
    (run_session env never happened fresh).responses
    ≡ bad_request (codes "Unknown HTTP-method") ∷ bad_request (codes "POST") ∷ []
unfolding run_session handle_event on_read on_write do_read fail send
both_answered = rw (unknown-answer, note-answer) refl
