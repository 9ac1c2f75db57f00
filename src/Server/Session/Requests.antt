-- ===== src/Server/Session/Requests.antt =====
-- Which requests a session answers, and how, in the events that it has.
use hzrobot.Prelude.{ℕ, suc, ◌+◌, ◌≤◌, Bool, true, false, List, [], ◌∷◌, ◌++◌, length, ◌≡◌, ◌⊎◌}
use hzrobot.Server.Reply.{Response}
use hzrobot.Server.{Request, Effect, Env, Outcome, responds, handle_request}
use hzrobot.Server.Routes.{effects}
use hzrobot.Server.Session.{
  Phase, reading, writing, Session, SessionEvent, request_read, response_written,
}

-- The requests of the events, and how often a response was written.
abbrev pub requests : List SessionEvent → List Request
requests [] = []
requests (request_read req ∷ events) = req ∷ requests events
requests (_ ∷ events) = requests events

abbrev pub writes : List SessionEvent → ℕ
writes [] = 0
writes (response_written ∷ events) = suc (writes events)
writes (_ ∷ events) = writes events

-- Not each request is read, and then a response written, in turn.
abbrev pub IsOutOfTurn : Bool → List SessionEvent → Type 0
IsOutOfTurn writes_first [] = ⊥
IsOutOfTurn false (request_read req ∷ events) = IsOutOfTurn true events
IsOutOfTurn true (response_written ∷ events) = IsOutOfTurn false events
IsOutOfTurn _ _ = Unit

-- The requests are the first of the others.
pub data AreFirst : List Request → List Request → Type 0 where
  no_more : {reqs : List Request} → AreFirst [] reqs
  here :
      {asked reqs : List Request} (req : Request)
      → AreFirst asked reqs
      → AreFirst (req ∷ asked) (req ∷ reqs)

-- The response of the handler, where it has one.
abbrev pub answer_of : Outcome → List Response
answer_of (responds es response) = response ∷ []
answer_of _ = []

-- How many responses a session can have from a phase on before one is written.
abbrev pub credit : Phase → ℕ
credit reading = 1
credit _ = 0

module _ (env : Env) (need_eof : Request → Response → Bool) where
  -- The effects and the responses of the handler for the requests, one after the other.
  abbrev pub all_effects : List Request → List Effect
  all_effects [] = []
  all_effects (req ∷ reqs) = effects (handle_request env req) ++ all_effects reqs

  abbrev pub all_answers : List Request → List Response
  all_answers [] = []
  all_answers (req ∷ reqs) = answer_of (handle_request env req) ++ all_answers reqs

  -- The handler has a response, after which the session goes on.
  abbrev pub GoesOn : Request → Type 0
  GoesOn req =
      (es : List Effect) × (response : Response) × (handle_request env req ≡ responds es response)
      × (need_eof req response ≡ false)

  -- It goes on after each of the requests but the last.
  abbrev pub GoOn : List Request → Type 0
  GoOn [] = Unit
  GoOn (req ∷ []) = Unit
  GoOn (req ∷ next ∷ reqs) = GoesOn req × GoOn (next ∷ reqs)

  -- After one of the requests the session does not go on.
  abbrev pub Stops : List Request → Type 0
  Stops [] = ⊥
  Stops (req ∷ reqs) = (¬ GoesOn req) ⊎ Stops reqs

  -- All requests that were read are asked for, but where the events are out of turn or the session
  -- stops after one of them; the flag is for a session that writes.
  abbrev pub Complete : Bool → List Request → List SessionEvent → Type 0
  Complete writes_first asked events =
      (asked ≡ requests events) ⊎ (IsOutOfTurn writes_first events ⊎ Stops asked)

  abbrev pub IsComplete : Phase → List Request → List SessionEvent → Type 0
  IsComplete reading asked events = Complete false asked events
  IsComplete (writing false) asked events = Complete true asked events
  IsComplete _ asked events = Unit

  -- Which requests a session can answer from a phase on.
  abbrev pub MayAnswer : Phase → List Request → Type 0
  MayAnswer reading asked = GoOn asked
  MayAnswer (writing false) asked = GoOn asked
  MayAnswer _ asked = asked ≡ []

  -- What a session does with events.
  abbrev pub Answers : List Request → List SessionEvent → Session → Session → Type 0
  Answers asked events s s' =
      AreFirst asked (requests events)
      × (s'.done ≡ s.done ++ all_effects asked)
      × (s'.responses ≡ s.responses ++ all_answers asked)

  -- From the session's phase on; the phase is not the session's, so that it can be split on.
  abbrev pub Runs : Phase → List SessionEvent → Session → Session → Type 0
  Runs phase events s s' =
      (asked : List Request) × Answers asked events s s'
      × MayAnswer phase asked
      × IsComplete phase asked events
      × (length (all_answers asked) ≤ credit phase + writes events)
