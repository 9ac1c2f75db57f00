-- ===== src/Server/Forwarding.antt =====
-- What `handle_request` gives to `send` for the robot.
use hzrobot.Prelude.{
  ℕ, sym, subst, Bool, true, false, not, ◌||◌, Option, some, none, [], Bytes, codes, ◌≡◌, ◌≢◌, ◌⊎◌,
  inl, inr, refl, ◌∙◌, ap, arith, Bool-cases, equal,
}
use hzrobot.Text.Search.{contains}
use hzrobot.Server.Reply.{path_cat}
use hzrobot.Server.Upload.{Ending, refused, thrown, finished, config_upload}
use hzrobot.Server.{
  unreadable, action_of, Verb, post, get, head, delete_, put, other, Request, Env, Outcome, Action,
  missing, mode, File, opened, no_such_file, failed, is_known, forward_of, method_of, forward_route,
  run_mode, run_action, tips_route, configs_route, post_route, file_route, is_post, is_get, is_head,
  written, end_upload, after_upload, route, handle_request,
}
use hzrobot.Server.Guard.{handle_request_guard, is_known_iff}
use hzrobot.Server.Sending.{sent_on, forwarded, IsPassedOn, SendsAtMost, call_robot-forwarded}

forward_of-IsPassedOn :
    (env : Env) (req : Request)
    → is_known req.verb ≡ true
    → (forward_of env req).method ≢ []
    → IsPassedOn req (forward_of env req)
unfolding forward_of path_cat is_known
forward_of-IsPassedOn env req known filled = (method_cases req.verb known filled, refl, refl)
  where
    method_cases :
        (v : Verb)
        → is_known v ≡ true
        → method_of v ≢ []
        → ((v ≡ post) × (method_of v ≡ codes "POST")) ⊎ ((v ≡ get) × (method_of v ≡ codes "GET"))
    method_cases post known filled = inl (refl, refl)
    method_cases get known filled = inr (refl, refl)
    method_cases head known filled = absurd (filled refl)
    method_cases delete_ known filled = absurd cc
    method_cases put known filled = absurd cc
    method_cases other known filled = absurd cc

forward_route-SendsAtMost :
    (env : Env) (req : Request)
    → is_known req.verb ≡ true
    → SendsAtMost (forward_route env req) req env
unfolding forward_route
forward_route-SendsAtMost env req known =
    let fw = forward_of env req in
    elim (call_robot-forwarded env fw) [
      | inl e ↦ inl e
      | inr h ↦ inr (h.0, forward_of-IsPassedOn env req known h.1, h.2)
    ]

run_mode-sent : (m : ℕ) → sent_on (run_mode m) ≡ []
unfolding run_mode
run_mode-sent m = ground arith

run_action-forwarded : (env : Env) (a : Action) → forwarded (run_action env a) ≡ []
unfolding run_action
run_action-forwarded env unreadable = refl
run_action-forwarded env missing = refl
run_action-forwarded env (mode m) = run_mode-sent m

tips_route-forwarded : (env : Env) (req : Request) → forwarded (tips_route env req) ≡ []
unfolding tips_route
tips_route-forwarded env req =
    elim (Bool-cases (equal req.content_type (codes "application/json"))) [
      | inl e ↦ (rw e) ∙ run_action-forwarded env (action_of env.atoi req.body)
      | inr e ↦ rw e
    ]

end_upload-forwarded :
    (env : Env) (w : Option (Bytes × Bytes)) (e : Ending)
    → forwarded (end_upload env (written w) e) ≡ []
unfolding end_upload written
end_upload-forwarded env none refused = refl
end_upload-forwarded env (some x) refused = refl
end_upload-forwarded env none thrown = refl
end_upload-forwarded env (some x) thrown = refl
end_upload-forwarded env none finished = refl
end_upload-forwarded env (some x) finished = refl

configs_route-forwarded :
    (env : Env) (req : Request) (path : Bytes) → forwarded (configs_route env req path) ≡ []
unfolding configs_route after_upload
configs_route-forwarded env req path =
    let u = config_upload req.content_type req.body in
    elim (Bool-cases (
      not (
        contains (codes "/mysql_config") path
        || contains (codes "/photo_config") path
        || contains (codes "/server_config") path))) [
          | inl e ↦ rw e
          | inr e ↦ (rw e) ∙ end_upload-forwarded env u.wrote u.ending
        ]

post_route-forwarded : (req : Request) → forwarded (post_route req) ≡ []
unfolding post_route
post_route-forwarded req = elim (Bool-cases (equal req.content_type (codes "application/json"))) [
  | inl e ↦ rw e
  | inr e ↦ rw e
]

file_route-forwarded :
    (h : Bool) (target path : Bytes) (f : File) → forwarded (file_route h target path f) ≡ []
unfolding file_route
file_route-forwarded h target path no_such_file = refl
file_route-forwarded h target path (failed m) = refl
file_route-forwarded h target path (opened c) = refl

-- Without the API in the path nothing is sent.
route-forwarded :
    (env : Env) (req : Request) (path : Bytes)
    → contains (codes "./api/v2/") path ≡ false
    → forwarded (route env req path) ≡ []
unfolding route
route-forwarded env req path n = elim (Bool-cases (contains (codes "./robot/tips") path)) [
  | inl e ↦ (rw (n, e)) ∙ tips_route-forwarded env req
  | inr k ↦ elim (Bool-cases (contains (codes "./robot/configs") path)) [
    | inl e ↦ (rw (n, k, e)) ∙ configs_route-forwarded env req path
    | inr l ↦ elim (Bool-cases (is_post req.verb)) [
      | inl e ↦ (rw (n, k, l, e)) ∙ post_route-forwarded req
      | inr p ↦ elim (Bool-cases (is_get req.verb)) [
        | inl e ↦ rw (n, k, l, p, e)
        | inr g ↦
            (rw (n, k, l, p, g))
            ∙ file_route-forwarded (is_head req.verb) req.target path (env.open_file path)
      ]
    ]
  ]
]

route-SendsAtMost :
    (env : Env) (req : Request) (path : Bytes)
    → is_known req.verb ≡ true
    → SendsAtMost (route env req path) req env
unfolding route
route-SendsAtMost env req path known = elim (Bool-cases (contains (codes "./api/v2/") path)) [
  | inr n ↦ inl (route-forwarded env req path n)
  | inl e ↦ rw e (forward_route-SendsAtMost env req known)
]

-- All that `handle_request` gives to `send` for the robot is the request that it received, with its
-- method, which is POST or GET, its target and its body, and it is given once at most, unless the
-- first call of `send` succeeds but takes another number of bytes than all.
pub handle_request-SendsAtMost :
    (env : Env) (req : Request) → SendsAtMost (handle_request env req) req env
handle_request-SendsAtMost env req = elim (handle_request_guard env req) [
  | inr h ↦ inl (ap forwarded h.1.1)
  | inl h ↦
      subst (λ (o : Outcome). SendsAtMost o req env) (sym h.2)
        (route-SendsAtMost env req (path_cat env.doc_root req.target)
          ((is_known_iff req.verb).1 h.0))
]
