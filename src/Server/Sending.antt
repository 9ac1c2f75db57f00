-- ===== src/Server/Sending.antt =====
-- What the calls of `send` that `sync_client` makes for `handle_request` are given.
use hzrobot.Prelude.{
  ℕ, zero, suc, ◌+◌, ◌-◌, ◌%◌, ◌^◌, ◌<◌, ◌≤◌, length, All, sym, subst, ℕ_discrete, true, Option,
  some, none, List, [], ◌∷◌, Bytes, codes, ◌≡◌, ◌≢◌, ◌⊎◌, inl, inr, refl, ◌∙◌, ap, arith,
  Bool-cases,
}
use hzrobot.Server.Reply.{Response, comm_response}
use hzrobot.Http.Message.{HttpRequest}
use hzrobot.Http.Request.{encode_request}
use hzrobot.Http.Client.{Called, succeeds, fails, crashed, call, send_calls, socket_addr, Network}
use hzrobot.Http.Message.{Numbers, is_empty_text}
use hzrobot.Prelude.{Option-cases}
use hzrobot.Server.{
  repeated, Forward, answer_forward, client_request, new_response, forward_effects, call_robot,
  comm_outcome, post, get, Request, Forward, Effect, forwards, Env, Outcome, forward_of, call_robot,
  answer_forward,
}
use hzrobot.Server.Routes.{effects}

-- What the calls of `send` for the robot are given.
abbrev pub sent_on : List Effect → List Forward
sent_on [] = []
sent_on (forwards fw ∷ es) = fw ∷ sent_on es
sent_on (_ ∷ es) = sent_on es

abbrev pub forwarded : Outcome → List Forward
forwarded o = sent_on (effects o)

-- The request as the robot is to get it: the method by its name, the target and the body.
abbrev pub IsPassedOn : Request → Forward → Type 0
IsPassedOn req fw =
    (((req.verb ≡ post) × (fw.method ≡ codes "POST"))
      ⊎ ((req.verb ≡ get) × (fw.method ≡ codes "GET")))
    × (fw.url ≡ req.target)
    × (fw.body ≡ req.body)

-- The first call of `send` takes another number of bytes than those of the request, and no error.
abbrev pub TakesPart : Env → Forward → Type 0
TakesPart env fw =
    (text : Bytes) × (rc : ℕ) × (later : List ℕ) × (encode_request env.numbers (client_request fw)
      ≡ some text)
    × (env.network.sends ≡ rc ∷ later)
    × (0 < rc)
    × (rc ≢ length text)

-- All that is sent is the request, passed on, and it is sent at most once, unless the first call of
-- `send` takes a part.
abbrev pub Sends : List Forward → Request → Env → Type 0
Sends sent req env =
    (sent ≡ [])
    ⊎ (All (λ (fw : Forward). fw ≡ forward_of env req) sent
        × IsPassedOn req (forward_of env req)
        × ((length sent ≤ 1) ⊎ TakesPart env (forward_of env req)))

abbrev pub SendsAtMost : Outcome → Request → Env → Type 0
SendsAtMost o req env = Sends (forwarded o) req env

-- The loop ends after one call, unless that takes another number of bytes than all.
send_calls-once :
    (size len : ℕ) (rcs : List ℕ)
    → (send_calls size len rcs ≤ 1)
      ⊎ ((rc : ℕ) × (later : List ℕ) × (rcs ≡ rc ∷ later) × (0 < rc) × (rc ≢ len))
unfolding send_calls
send_calls-once size zero rcs = inl (omega arith)
send_calls-once size (suc len) [] = inl (omega arith)
send_calls-once size (suc len) (zero ∷ rcs) = inl (omega arith)
send_calls-once size (suc len) (suc n ∷ rcs) = elim (ℕ_discrete (suc n) (suc len)) [
  | yes same ↦
      let left : (suc len + 2 ^ 64 - suc n) % 2 ^ 64 ≡ 0 = omega (arith, same) in
      inl (rw left (grind arith))
  | no differs ↦ inr (suc n, rcs, refl, omega arith, differs)
]

sent_on-repeated :
    (n : ℕ) (fw : Forward)
    → All (λ (sent : Forward). sent ≡ fw) (sent_on (repeated n (forwards fw)))
      × (length (sent_on (repeated n (forwards fw))) ≡ n)
unfolding repeated
sent_on-repeated zero fw = (tt, refl)
sent_on-repeated (suc n) fw =
    let (all, count) = sent_on-repeated n fw in ((refl, all), ap suc count)

comm_outcome-forwarded :
    (done : List Effect) (r : Option Response) → forwarded (comm_outcome done r) ≡ sent_on done
unfolding comm_outcome
comm_outcome-forwarded done none = refl
comm_outcome-forwarded done (some r) = refl

answer-forwarded :
    (done : List Effect) (r : Option Called) → forwarded (answer_forward done r) ≡ sent_on done
unfolding answer_forward
answer-forwarded done (some (succeeds reply)) =
    comm_outcome-forwarded done (comm_response reply.body)
answer-forwarded done (some (fails reply)) = refl
answer-forwarded done (some crashed) = refl
answer-forwarded done none = refl

encode_request-method :
    (numbers : Numbers) (req : HttpRequest) → req.method ≡ [] → encode_request numbers req ≡ none
unfolding encode_request
encode_request-method numbers req e =
    let empty : is_empty_text req.method ≡ true = ap is_empty_text e in rw empty refl

-- What `send` is given for a request that the client encoded.
forward_effects-sends :
    (network : Network) (fw : Forward) (text : Bytes)
    → All (λ (sent : Forward). sent ≡ fw) (sent_on (forward_effects network fw (some text)))
      × ((length (sent_on (forward_effects network fw (some text))) ≤ 1)
          ⊎ ((rc : ℕ) × (later : List ℕ) × (network.sends ≡ rc ∷ later)
              × (0 < rc)
              × (rc ≢ length text)))
unfolding forward_effects
forward_effects-sends network fw text =
    let calls = send_calls (length text) (length text) network.sends in
    let (all, count) = sent_on-repeated calls fw in
    elim (Bool-cases (network.connects (socket_addr (client_request fw).host))) [
      | inr p ↦ rw p (tt, inl (omega arith))
      | inl p ↦ rw p (
        all,
        elim (send_calls-once (length text) (length text) network.sends) [
          | inl few ↦ inl (subst (λ n. n ≤ 1) (sym count) few)
          | inr part ↦ inr part
        ],
      )
    ]

pub call_robot-forwarded :
    (env : Env) (fw : Forward)
    → (forwarded (call_robot env fw) ≡ [])
      ⊎ (All (λ (sent : Forward). sent ≡ fw) (forwarded (call_robot env fw))
          × (fw.method ≢ [])
          × ((length (forwarded (call_robot env fw)) ≤ 1) ⊎ TakesPart env fw))
unfolding call_robot forward_effects
call_robot-forwarded env fw =
    let request = client_request fw in
    let text = encode_request env.numbers request in
    let result = call env.numbers env.network request new_response in
    let shown = answer-forwarded (forward_effects env.network fw text) result in
    elim (Option-cases text) [
      | inl e ↦ inl (shown ∙ ap (λ t. sent_on (forward_effects env.network fw t)) e)
      | inr (bytes, e) ↦
          let (all, often) = forward_effects-sends env.network fw bytes in
          let same = sym (shown ∙ ap (λ t. sent_on (forward_effects env.network fw t)) e) in
          inr (
            subst (All (λ (sent : Forward). sent ≡ fw)) same all,
            (λ m. absurd (cc (e, encode_request-method env.numbers request m))),
            elim often [
              | inl few ↦ inl (subst (λ (sent : List Forward). length sent ≤ 1) same few)
              | inr (rc, later, first, some_bytes, part) ↦
                  inr (bytes, rc, later, e, first, some_bytes, part)
            ],
          )
    ]
