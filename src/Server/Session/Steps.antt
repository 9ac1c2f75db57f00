-- ===== src/Server/Session/Steps.antt =====
-- What a session does with one event, by what it does with the later ones.
use hzrobot.Prelude.{
  length-append, ◌+◌, ◌≤◌, Bool, true, false, List, [], ◌∷◌, ◌++◌, length, append-nil, append_assoc,
  ◌≡◌, refl, ◌∙◌, ap, sym, subst, inl, inr, arith, Bool-cases,
}
use hzrobot.Server.Reply.{Response}
use hzrobot.Server.{
  Request, Effect, Env, Outcome, responds, throws, reads_null, crashes, waits, handle_request,
}
use hzrobot.Server.Routes.{effects}
use hzrobot.Server.Session.{
  Phase, reading, writing, abandoned, handler_left, Session, SessionEvent, request_read,
  end_of_stream, error, response_written, send, run_session, fail,
}
use hzrobot.Server.Session.Requests.{
  requests, writes, AreFirst, here, no_more, answer_of, all_effects, all_answers, GoesOn, GoOn,
  Complete, IsComplete, MayAnswer, credit, Runs,
}

module _ (env : Env) (need_eof : Request → Response → Bool) where
  abbrev pub ran : List SessionEvent → Session → Session
  ran = run_session env need_eof

  pub none_first :
      (event : SessionEvent) (events : List SessionEvent) (asked : List Request)
      → asked ≡ []
      → AreFirst asked (requests events)
      → AreFirst asked (requests (event ∷ events))
  none_first event events asked none_asked first =
      subst (λ (r : List Request). AreFirst r (requests (event ∷ events))) (sym none_asked) no_more

  -- An event that asks nothing of the handler.
  pub keeps :
      (event : SessionEvent) (events : List SessionEvent) (p q : Phase) (s s1 s' : Session)
      → s1.done ≡ s.done
      → s1.responses ≡ s.responses
      → ((asked : List Request)
          → MayAnswer env need_eof p asked
          → AreFirst asked (requests events)
          → AreFirst asked (requests (event ∷ events)))
      → ((asked : List Request) → MayAnswer env need_eof p asked → MayAnswer env need_eof q asked)
      → ((asked : List Request)
          → IsComplete env need_eof p asked events
          → IsComplete env need_eof q asked (event ∷ events))
      → credit p + writes events ≤ credit q + writes (event ∷ events)
      → Runs env need_eof p events s1 s'
      → Runs env need_eof q (event ∷ events) s s'
  keeps event events p q s s1 s' done responses begins may complete count
        (asked, (first, effs, answers), ok, all, few) =
      (
        asked,
        (
          begins asked ok first,
          effs ∙ ap (λ (d : List Effect). d ++ all_effects env need_eof asked) done,
          answers ∙ ap (λ (r : List Response). r ++ all_answers env need_eof asked) responses,
        ),
        may asked ok,
        complete asked all,
        omega (arith, few, count),
      )

  pub GoOn-nil : (asked : List Request) → asked ≡ [] → GoOn env need_eof asked
  GoOn-nil asked none_asked = subst (GoOn env need_eof) (sym none_asked) tt

  answered_last :
      (req : Request) (others : List Request) → others ≡ [] → GoOn env need_eof (req ∷ others)
  answered_last req others none_asked =
      subst (λ (r : List Request). GoOn env need_eof (req ∷ r)) (sym none_asked) tt

  answered_first :
      (req : Request) (others : List Request)
      → GoesOn env need_eof req
      → GoOn env need_eof others
      → GoOn env need_eof (req ∷ others)
  answered_first req [] goes go = tt
  answered_first req (next ∷ others) goes go = (goes, go)

  -- A request that is read, with what the session does after the handler.
  asks :
      (req : Request) (events : List SessionEvent) (p : Phase) (es : List Effect)
      (answers : List Response) (s s1 s' : Session)
      → effects (handle_request env req) ≡ es
      → answer_of (handle_request env req) ≡ answers
      → s1.done ≡ s.done ++ es
      → s1.responses ≡ s.responses ++ answers
      → ((asked : List Request) → MayAnswer env need_eof p asked → GoOn env need_eof (req ∷ asked))
      → ((asked : List Request)
          → IsComplete env need_eof p asked events
          → Complete env need_eof false (req ∷ asked) (request_read req ∷ events))
      → length answers + credit p ≤ 1
      → Runs env need_eof p events s1 s'
      → Runs env need_eof reading (request_read req ∷ events) s s'
  asks req events p es answers s s1 s' has_effects has_answer done responses may complete count
        (asked, (first, effs, answered), ok, all, few) =
      (
        req ∷ asked,
        (
          here req first,
          effs
              ∙ ap (λ (d : List Effect). d ++ all_effects env need_eof asked)
                  (done ∙ ap (λ (e : List Effect). s.done ++ e) (sym has_effects))
              ∙ append_assoc s.done (effects (handle_request env req))
                  (all_effects env need_eof asked),
          answered
              ∙ ap (λ (r : List Response). r ++ all_answers env need_eof asked)
                  (responses ∙ ap (λ (a : List Response). s.responses ++ a) (sym has_answer))
              ∙ append_assoc s.responses (answer_of (handle_request env req))
                  (all_answers env need_eof asked),
        ),
        may asked ok,
        complete asked all,
        rw (has_answer, length-append answers (all_answers env need_eof asked))
            (omega (arith, few, count)),
      )

  need_eof-stops :
      (req : Request) (es : List Effect) (response : Response)
      → handle_request env req ≡ responds es response
      → need_eof req response ≡ true
      → ¬ GoesOn env need_eof req
  need_eof-stops req es response answer ends (es', response', answer', stays) = cc

  no_answer-stops :
      (req : Request) → answer_of (handle_request env req) ≡ [] → ¬ GoesOn env need_eof req
  no_answer-stops req has_none (es, response, answer, stays) =
      absurd (cc (has_none, ap answer_of answer))

  more_answered :
      (req : Request) (events : List SessionEvent) (asked : List Request)
      → Complete env need_eof true asked events
      → Complete env need_eof false (req ∷ asked) (request_read req ∷ events)
  more_answered req events asked (inl all) = inl (ap (λ (r : List Request). req ∷ r) all)
  more_answered req events asked (inr (inl out)) = inr (inl out)
  more_answered req events asked (inr (inr stops)) = inr (inr (inr stops))

  -- The handler has no response.
  left :
      (req : Request) (es : List Effect) (events : List SessionEvent) (s : Session)
      → effects (handle_request env req) ≡ es
      → answer_of (handle_request env req) ≡ []
      → ¬ GoesOn env need_eof req
      → ((s1 : Session) → Runs env need_eof s1.phase events s1 (run_session env need_eof events s1))
      → Runs env need_eof reading
          (request_read req ∷ events)
          s
          (run_session env need_eof events (record s { phase = handler_left; done = s.done ++ es }))
  left req es events s has_effects has_none stops rest =
      let s1 = record s { phase = handler_left; done = s.done ++ es } in
      asks req events handler_left es [] s s1 (run_session env need_eof events s1) has_effects
        has_none refl (sym (append-nil s.responses)) (answered_last req)
        (λ asked all. inr (inr (inl stops))) (omega arith) (rest s1)

  pub request_lem :
      (req : Request) (o : Outcome) (events : List SessionEvent) (s : Session)
      → handle_request env req ≡ o
      → ((s1 : Session) → Runs env need_eof s1.phase events s1 (run_session env need_eof events s1))
      → Runs env need_eof reading
          (request_read req ∷ events)
          s
          (run_session env need_eof events (send env need_eof req o s))
  unfolding send
  request_lem req (responds es response) events s answer rest =
      let s1 = send env need_eof req (responds es response) s in
      let s' = run_session env need_eof events s1 in
      elim (Bool-cases (need_eof req response)) [
        | inl ends ↦
            asks req events (writing true) es (response ∷ []) s s1 s' (ap effects answer)
              (ap answer_of answer) refl refl (answered_last req)
              (λ asked all. inr (inr (inl (need_eof-stops req es response answer ends))))
              (omega arith)
              (subst (λ (b : Bool). Runs env need_eof (writing b) events s1 s') ends (rest s1))
        | inr stays ↦
            asks req events (writing false) es (response ∷ []) s s1 s' (ap effects answer)
              (ap answer_of answer) refl refl
              (λ asked. answered_first req asked (es, response, answer, stays))
              (more_answered req events) (omega arith)
              (subst (λ (b : Bool). Runs env need_eof (writing b) events s1 s') stays (rest s1))
      ]
  request_lem req (throws es) events s answer rest =
      left req es events s (ap effects answer) (ap answer_of answer)
        (no_answer-stops req (ap answer_of answer)) rest
  request_lem req (reads_null es) events s answer rest =
      left req es events s (ap effects answer) (ap answer_of answer)
        (no_answer-stops req (ap answer_of answer)) rest
  request_lem req (crashes es) events s answer rest =
      left req es events s (ap effects answer) (ap answer_of answer)
        (no_answer-stops req (ap answer_of answer)) rest
  request_lem req (waits es) events s answer rest =
      left req es events s (ap effects answer) (ap answer_of answer)
        (no_answer-stops req (ap answer_of answer)) rest

  pub more_writes :
      (event : SessionEvent) (events : List SessionEvent)
      → 0 + writes events ≤ 0 + writes (event ∷ events)
  more_writes (request_read req) events = omega arith
  more_writes end_of_stream events = omega arith
  more_writes error events = omega arith
  more_writes response_written events = omega arith

  -- What ends a write other than its success.
  pub stopped :
      (event : SessionEvent) (events : List SessionEvent) (c : Bool) (s : Session)
      → ((asked : List Request) → Unit {0} → Complete env need_eof true asked (event ∷ events))
      → ((s1 : Session) → Runs env need_eof s1.phase events s1 (run_session env need_eof events s1))
      → Runs env need_eof (writing c) (event ∷ events) s (run_session env need_eof events (fail s))
  unfolding fail
  stopped event events c s complete rest =
      keeps event events abandoned (writing c) s (fail s) (run_session env need_eof events (fail s))
        refl refl (none_first event events) (may c) (all c) (more_writes event events)
        (rest (fail s))
    where
      may :
          (b : Bool) (asked : List Request)
          → MayAnswer env need_eof abandoned asked
          → MayAnswer env need_eof (writing b) asked
      may true asked none_asked = none_asked
      may false asked none_asked = GoOn-nil asked none_asked

      all :
          (b : Bool) (asked : List Request)
          → Unit {0}
          → IsComplete env need_eof (writing b) asked (event ∷ events)
      all true asked h = tt
      all false asked h = complete asked h
