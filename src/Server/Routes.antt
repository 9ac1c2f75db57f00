-- ===== src/Server/Routes.antt =====
-- What the routes of `handle_request` do and answer.
use hzrobot.Prelude.{
  ℕ, zero, length, suc, ◌≤◌, Bool, true, not, ◌||◌, ◌==◌, if◌then◌else◌, Option, some, none, List,
  [], ◌∷◌, Bytes, codes, ◌≡◌, ◌⊎◌, inl, inr, refl, ◌∙◌, ap, arith, Bool-cases, equal, equal→eq,
}
use hzrobot.Text.Search.{contains}
use hzrobot.Server.Reply.{bad_request, path_cat, Response, comm_response}
use hzrobot.Server.Guard.{handle_request_guard}
use hzrobot.Server.Upload.{Uploaded, Ending, refused, thrown, finished, config_upload}
use hzrobot.Http.Request.{encode_request}
use hzrobot.Http.Client.{Network, socket_addr, send_calls, Called, succeeds, fails, crashed, call}
use hzrobot.Server.{
  forwards, repeated, Forward, crashes, waits, answer_forward, client_request, new_response,
  forward_effects, call_robot, comm_outcome, unreadable, action_of, Request, Forward, Effect,
  starts_task, Env, Outcome, responds, throws, reads_null, Action, missing, mode, File, opened,
  no_such_file, failed, forward_of, forward_route, run_mode, run_action, tips_route, configs_route,
  post_route, file_route, is_post, is_get, is_head, written, end_upload, after_upload, call_robot,
  answer_forward, route, handle_request,
}

abbrev pub starts : List Effect → ℕ
starts [] = 0
starts (starts_task ∷ es) = suc (starts es)
starts (_ ∷ es) = starts es

abbrev pub effects : Outcome → List Effect
effects (responds es r) = es
effects (throws es) = es
effects (reads_null es) = es
effects (crashes es) = es
effects (waits es) = es

-- The tasks that an outcome starts.
abbrev pub started : Outcome → ℕ
started o = starts (effects o)

started-comm_outcome :
    (done : List Effect) (r : Option Response) → started (comm_outcome done r) ≡ starts done
unfolding comm_outcome
started-comm_outcome done none = refl
started-comm_outcome done (some r) = refl

started-answer :
    (done : List Effect) (r : Option Called) → started (answer_forward done r) ≡ starts done
unfolding answer_forward
started-answer done (some (succeeds reply)) = started-comm_outcome done (comm_response reply.body)
started-answer done (some (fails reply)) = refl
started-answer done (some crashed) = refl
started-answer done none = refl

starts-repeated : (n : ℕ) (fw : Forward) → starts (repeated n (forwards fw)) ≡ 0
unfolding repeated
starts-repeated zero fw = refl
starts-repeated (suc n) fw = starts-repeated n fw

starts-forward_effects :
    (network : Network) (fw : Forward) (text : Option Bytes)
    → starts (forward_effects network fw text) ≡ 0
unfolding forward_effects
starts-forward_effects network fw none = refl
starts-forward_effects network fw (some text) =
    elim (Bool-cases (network.connects (socket_addr (client_request fw).host))) [
      | inl p ↦ (rw p) ∙ starts-repeated (send_calls (length text) (length text) network.sends) fw
      | inr p ↦ rw p
    ]

started-forward_route : (env : Env) (req : Request) → started (forward_route env req) ≡ 0
unfolding forward_route call_robot
started-forward_route env req =
    let fw = forward_of env req in
    let text = encode_request env.numbers (client_request fw) in
    started-answer (forward_effects env.network fw text)
      (call env.numbers env.network (client_request fw) new_response)
    ∙ starts-forward_effects env.network fw text

started-end_upload :
    (env : Env) (w : Option (Bytes × Bytes)) (e : Ending)
    → started (end_upload env (written w) e) ≡ 0
unfolding end_upload written
started-end_upload env none refused = refl
started-end_upload env (some x) refused = refl
started-end_upload env none thrown = refl
started-end_upload env (some x) thrown = refl
started-end_upload env none finished = refl
started-end_upload env (some x) finished = refl

started-after_upload : (env : Env) (u : Uploaded) → started (after_upload env u) ≡ 0
unfolding after_upload
started-after_upload env u = started-end_upload env u.wrote u.ending

started-configs_route :
    (env : Env) (req : Request) (path : Bytes) → started (configs_route env req path) ≡ 0
unfolding configs_route
started-configs_route env req path =
    elim (Bool-cases (
      not (
        contains (codes "/mysql_config") path
        || contains (codes "/photo_config") path
        || contains (codes "/server_config") path))) [
          | inl e ↦ rw e
          | inr e ↦
              let u = config_upload req.content_type req.body in
              (rw e) ∙ (started-after_upload env u)
        ]

started-file_route :
    (h : Bool) (target path : Bytes) (f : File) → started (file_route h target path f) ≡ 0
unfolding file_route
started-file_route h target path no_such_file = refl
started-file_route h target path (failed m) = refl
started-file_route h target path (opened c) = refl

started-post_route : (req : Request) → started (post_route req) ≡ 0
unfolding post_route
started-post_route req = elim (Bool-cases (equal req.content_type (codes "application/json"))) [
  | inl e ↦ rw e
  | inr e ↦ rw e
]

-- A task is asked for: by a JSON body with a mode that stands for one.
abbrev pub AsksTask : Env → Request → Type 0
AsksTask env req =
    (req.content_type ≡ codes "application/json")
    × ((m : ℕ) × (action_of env.atoi req.body ≡ mode m) × (1 ≤ m) × (m ≤ 3))

abbrev StartsAtMostOne : Outcome → Type 0 → Type 0
StartsAtMostOne o P = (started o ≡ 0) ⊎ ((started o ≡ 1) × P)

starts-run_mode :
    (m : ℕ) → (starts (run_mode m) ≡ 0) ⊎ ((starts (run_mode m) ≡ 1) × (1 ≤ m) × (m ≤ 3))
unfolding run_mode
starts-run_mode m = elim (Bool-cases (m == 1)) [
  | inl e ↦ inr (rw e, ground arith, ground arith)
  | inr n ↦ elim (Bool-cases (m == 2)) [
    | inl e ↦ inr (rw (n, e), ground arith, ground arith)
    | inr k ↦ elim (Bool-cases (m == 3)) [
      | inl e ↦ inr (rw (n, k, e), ground arith, ground arith)
      | inr l ↦ inl (rw (n, k, l))
    ]
  ]
]

started-run_action :
    (env : Env) (a : Action)
    → StartsAtMostOne (run_action env a) ((m : ℕ) × (a ≡ mode m) × (1 ≤ m) × (m ≤ 3))
unfolding run_action
started-run_action env unreadable = inl refl
started-run_action env missing = inl refl
started-run_action env (mode m) = elim (starts-run_mode m) [
  | inl e ↦ inl e
  | inr h ↦ inr (h.0, (m, refl, h.1, h.2))
]

started-tips_route :
    (env : Env) (req : Request) → StartsAtMostOne (tips_route env req) (AsksTask env req)
unfolding tips_route
started-tips_route env req = elim (Bool-cases (equal req.content_type (codes "application/json"))) [
  | inr e ↦ inl (rw e)
  | inl e ↦ elim (started-run_action env (action_of env.atoi req.body)) [
    | inl z ↦ inl ((rw e) ∙ z)
    | inr h ↦ inr ((rw e) ∙ h.0, (equal→eq req.content_type (codes "application/json") e, h.1))
  ]
]

started-rest :
    (env : Env) (req : Request) (path : Bytes)
    → started (
        if contains (codes "./robot/configs") path
        then configs_route env req path
        else if is_post req.verb
        then post_route req
        else if is_get req.verb
        then responds [] (bad_request (codes "Get"))
        else file_route (is_head req.verb) req.target path (env.open_file path))
      ≡ 0
started-rest env req path = elim (Bool-cases (contains (codes "./robot/configs") path)) [
  | inl e ↦ (rw e) ∙ (started-configs_route env req path)
  | inr n ↦ elim (Bool-cases (is_post req.verb)) [
    | inl e ↦ (rw (n, e)) ∙ (started-post_route req)
    | inr k ↦ elim (Bool-cases (is_get req.verb)) [
      | inl e ↦ rw (n, k, e)
      | inr l ↦
          (rw (n, k, l))
          ∙ (started-file_route (is_head req.verb) req.target path (env.open_file path))
    ]
  ]
]

started-route :
    (env : Env) (req : Request) (path : Bytes)
    → StartsAtMostOne
        (route env req path)
        (AsksTask env req × (contains (codes "./robot/tips") path ≡ true))
unfolding route
started-route env req path = elim (Bool-cases (contains (codes "./api/v2/") path)) [
  | inl e ↦ inl ((rw e) ∙ (started-forward_route env req))
  | inr n ↦ elim (Bool-cases (contains (codes "./robot/tips") path)) [
    | inr k ↦ inl ((rw (n, k)) ∙ (started-rest env req path))
    | inl e ↦ elim (started-tips_route env req) [
      | inl z ↦ inl ((rw (n, e)) ∙ z)
      | inr h ↦ inr ((rw (n, e)) ∙ h.0, (h.1, e))
    ]
  ]
]

-- No request starts more than one task, and one that starts a task is a tip in JSON with a mode
-- from 1 to 3.
pub handle_request-started :
    (env : Env) (req : Request)
    → (started (handle_request env req) ≡ 0)
      ⊎ ((started (handle_request env req) ≡ 1)
          × AsksTask env req
          × (contains (codes "./robot/tips") (path_cat env.doc_root req.target) ≡ true))
handle_request-started env req = elim (handle_request_guard env req) [
  | inr h ↦ inl (ap started h.1.1)
  | inl h ↦ elim (started-route env req (path_cat env.doc_root req.target)) [
    | inl z ↦ inl (ap started h.2 ∙ z)
    | inr g ↦ inr (ap started h.2 ∙ g.0, g.1.0, g.1.1)
  ]
]
