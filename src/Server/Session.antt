-- ===== src/Server/Session.antt =====
-- The sessions of Include/http/Source/HttpServer.cpp: reading a request, handling it and writing its
-- response. What Beast reads and whether a write succeeds are events; `need_eof` is Beast's.
pub mod Requests
pub mod Steps
pub mod Answers
use hzrobot.Prelude.{Bool, true, false, if◌then◌else◌, List, [], ◌∷◌, ◌++◌}
use hzrobot.Server.Reply.{Response}
use hzrobot.Server.{
  Request, Effect, Env, Outcome, responds, throws, reads_null, crashes, waits, handle_request,
}

-- What a session does: an operation with the stream, nothing after its end or an error, or the
-- handler has not returned. A write holds whether the session closes after it.
pub data Phase : Type 0 where
  reading : Phase
  writing : Bool → Phase
  closed abandoned handler_left : Phase

-- With all effects of the handler and all responses that were handed to Beast.
pub record Session : Type 0 where
  pub phase : Phase
  pub done : List Effect
  pub responses : List Response

-- How an operation completes.
pub data SessionEvent : Type 0 where
  request_read : Request → SessionEvent
  end_of_stream error response_written : SessionEvent

unfoldable pub do_read : Session → Session
do_read s = record s { phase = reading }

unfoldable pub do_close : Session → Session
do_close s = record s { phase = closed }

unfoldable pub fail : Session → Session
fail s = record s { phase = abandoned }

module _ (env : Env) (need_eof : Request → Response → Bool) where
  -- `send_lambda`, where the handler has a response.
  unfoldable pub send : Request → Outcome → Session → Session
  send req (responds effects response) s = record {
    phase = writing (need_eof req response);
    done = s.done ++ effects;
    responses = s.responses ++ response ∷ [];
  }
  send req (throws effects) s = record s { phase = handler_left; done = s.done ++ effects }
  send req (reads_null effects) s = record s { phase = handler_left; done = s.done ++ effects }
  send req (crashes effects) s = record s { phase = handler_left; done = s.done ++ effects }
  send req (waits effects) s = record s { phase = handler_left; done = s.done ++ effects }

  unfoldable pub on_read : SessionEvent → Session → Session
  unfolding do_close fail send
  on_read (request_read req) s = send req (handle_request env req) s
  on_read end_of_stream s = do_close s
  on_read _ s = fail s

  unfoldable pub on_write : Bool → SessionEvent → Session → Session
  unfolding do_close do_read fail
  on_write close response_written s = if close then do_close s else do_read s
  on_write close _ s = fail s

  -- The handler of the operation that runs.
  unfoldable pub handle_event : SessionEvent → Phase → Session → Session
  unfolding on_read on_write
  handle_event event reading s = on_read event s
  handle_event event (writing close) s = on_write close event s
  handle_event event _ s = s

  unfoldable pub run_session : List SessionEvent → Session → Session
  unfolding handle_event
  run_session [] s = s
  run_session (event ∷ events) s = run_session events (handle_event event s.phase s)
