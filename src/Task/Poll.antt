-- ===== src/Task/Poll.antt =====
-- A whole round of `taskPoll`: when the robot is told to go on.
use native.Mathlib.Nat.{add-zero, zero-add}
use hzrobot.Prelude.{
  ℕ, zero, suc, ◌+◌, ◌<◌, Bool, true, false, Option, some, none, List, [], ◌∷◌, ◌++◌, ◌≡◌, ◌≢◌,
  refl, sym, ap, subst, ◌∙◌, arith, Bytes, ◌⊎◌, inl, inr, Option-cases,
}
use hzrobot.Task.{
  continhue_faild, photo_faild, Record, Attempt, call_failed, call_threw, call_crashed, replied,
  photo_attempt, Loop, photo_loop, photo_execute, Call, sent, failed, threw, continue_attempt,
  continue_loop, execute_after, Task, photo_task, base_task, World, Round, finish_round, task_poll,
}
use hzrobot.Task.Retry.{IsSuccess, unfinished, photo_loop_attempt, photo_loop_null}

attempt_flag :
    (body : Bytes) (a : Attempt) (entry : Record)
    → photo_attempt body false a ≡ some (true, entry)
    → IsSuccess a
unfolding photo_attempt
attempt_flag body call_failed entry h = ground arith
attempt_flag body call_threw entry h = ground arith
attempt_flag body call_crashed entry h = ground arith
attempt_flag body (replied r) entry h = ground arith

module _ (body : Bytes) (net : ℕ → Attempt) where
  abbrev Succeeds : ℕ → ℕ → Type 0
  Succeeds calls left = (k : ℕ) × (k < left) × IsSuccess (net (calls + k))

  photo_loop_flag_step :
      (left calls : ℕ) (log : List Record) (s : Loop)
      → ((log' : List Record)
          → photo_loop body net left (unfinished (calls + 1) log') ≡ some s
          → Succeeds (calls + 1) left)
      → photo_loop body net (suc left) (unfinished calls log) ≡ some s
      → (o : Option (Bool × Record)) → photo_attempt body false (net calls) ≡ o
      → Succeeds calls (suc left)
  photo_loop_flag_step left calls log s ih e none a =
      absurd (cc (e, photo_loop_null body net left calls log a))
  photo_loop_flag_step left calls log s ih e (some (true, entry)) a = (
    0,
    omega arith,
    subst (λ n. IsSuccess (net n)) (sym (add-zero calls)) (attempt_flag body _ entry a),
  )
  photo_loop_flag_step left calls log s ih e (some (false, entry)) a =
      let (k, lt, h) = ih _ (sym (photo_loop_attempt body net left calls log false entry a) ∙ e) in
      (suc k, omega arith, subst (λ n. IsSuccess (net n)) (omega arith) h)

  photo_loop_flag :
      (left calls : ℕ) (log : List Record) (s : Loop)
      → s.flag ≡ true
      → photo_loop body net left (unfinished calls log) ≡ some s
      → Succeeds calls left
  photo_loop_flag zero calls log s h e = unfold photo_loop in absurd (ground arith)
  photo_loop_flag (suc left) calls log s h e =
      photo_loop_flag_step left calls log s (λ log'. photo_loop_flag left (calls + 1) log' s h) e _
        refl

-- A call that did not go through.
abbrev pub IsUnsent : Call → Type 0
IsUnsent c = c ≢ sent

module _ (body : Bytes) (net : ℕ → Call) where
  -- What the loop of `execute_after` leaves, from the `calls`-th call on.
  abbrev pub Sends : ℕ → ℕ → Loop → Type 0
  Sends calls left s =
      ((k : ℕ) × (k < left)
        × ((j : ℕ) → j < k → IsUnsent (net (calls + j)))
        × (net (calls + k) ≡ sent)
        × (s.flag ≡ true)
        × (s.calls ≡ calls + k + 1))
      ⊎ (((j : ℕ) → j < left → IsUnsent (net (calls + j)))
          × (s.flag ≡ false)
          × (s.calls ≡ calls + left))

  continue_loop_done :
      (left calls : ℕ) (log : List Record)
      → continue_loop body net left (record { flag = true; calls = calls; log = log })
        ≡ record { flag = true; calls = calls; log = log }
  unfolding continue_loop
  continue_loop_done zero calls log = refl
  continue_loop_done (suc left) calls log = refl

  continue_loop_call :
      (left calls : ℕ) (log : List Record) (flag : Bool) (entry : Record)
      → continue_attempt body false (net calls) ≡ (flag, entry)
      → continue_loop body net (suc left) (unfinished calls log)
        ≡ continue_loop body net left
            (record { flag = flag; calls = calls + 1; log = log ++ entry ∷ [] })
  unfolding continue_loop
  continue_loop_call left calls log flag entry e = rw (e, continue_loop)

  IsUnsent-cons :
      (calls k : ℕ)
      → IsUnsent (net calls)
      → ((j : ℕ) → j < k → IsUnsent (net (calls + 1 + j)))
      → (j : ℕ) → j < suc k
      → IsUnsent (net (calls + j))
  IsUnsent-cons calls k here h zero p = subst (λ n. IsUnsent (net n)) (sym (add-zero calls)) here
  IsUnsent-cons calls k here h (suc j) p =
      subst (λ n. IsUnsent (net n)) (omega arith) (h j (omega arith))

  Sends-suc :
      (calls left : ℕ) (s : Loop)
      → IsUnsent (net calls)
      → Sends (calls + 1) left s
      → Sends calls (suc left) s
  Sends-suc calls left s here (inl (k, lt, h, e, f, c)) =
      inl
        (suc k, omega arith, IsUnsent-cons calls k here h, ap net (omega arith) ∙ e, f, omega arith)
  Sends-suc calls left s here (inr (h, f, c)) =
      inr (IsUnsent-cons calls left here h, f, omega arith)

  Sends-step :
      (left calls : ℕ) (log : List Record) (c : Call)
      → net calls ≡ c
      → ((log' : List Record)
          → Sends (calls + 1) left (continue_loop body net left (unfinished (calls + 1) log')))
      → Sends calls (suc left) (continue_loop body net (suc left) (unfinished calls log))
  unfolding continue_attempt
  Sends-step left calls log sent e ih =
      let stops =
        continue_loop_call left calls log true _ (ap (continue_attempt body false) e)
        ∙ continue_loop_done left _ _ in
      inl (
        0,
        omega arith,
        λ j p. absurd (omega arith),
        ap net (add-zero calls) ∙ e,
        ap (λ s. s.flag) stops,
        ap (λ s. s.calls) stops ∙ omega arith,
      )
  Sends-step left calls log failed e ih =
      subst (Sends calls (suc left))
        (sym (continue_loop_call left calls log false _ (ap (continue_attempt body false) e)))
        (Sends-suc calls left
          (continue_loop body net left
            (unfinished (calls + 1) (log ++ (continhue_faild, body) ∷ [])))
          (λ q. absurd (cc (e, q))) (ih _))
  Sends-step left calls log threw e ih =
      subst (Sends calls (suc left))
        (sym (continue_loop_call left calls log false _ (ap (continue_attempt body false) e)))
        (Sends-suc calls left
          (continue_loop body net left (unfinished (calls + 1) (log ++ (photo_faild, body) ∷ [])))
          (λ q. absurd (cc (e, q))) (ih _))

  continue_loop-Sends :
      (left calls : ℕ) (log : List Record)
      → Sends calls left (continue_loop body net left (unfinished calls log))
  continue_loop-Sends zero calls log =
      unfold continue_loop in inr (λ j p. absurd (omega arith), refl, omega arith)
  continue_loop-Sends (suc left) calls log =
      Sends-step left calls log (net calls) refl (continue_loop-Sends left (calls + 1))

  -- `execute_after` returns true in any case. It stops with the first call that goes through,
  -- if there is one within the limit, and gives up after exactly `cn_photo` calls if there is none.
  execute_after_lem :
      (cn_photo : ℕ)
      → ((execute_after body net cn_photo).0 ≡ true)
        × Sends 0 cn_photo (execute_after body net cn_photo).1
  unfolding execute_after
  execute_after_lem cn_photo = (refl, continue_loop-Sends cn_photo 0 [])

finish_round_continue :
    (w : World) (s : Loop) → 0 < (finish_round w s).continue_calls → s.flag ≡ true
unfolding finish_round
finish_round_continue w s h = ground arith

executed-IsSuccess :
    (w : World) (s : Loop)
    → photo_execute w.photo_body w.photo_net w.cn_photo ≡ some s
    → s.flag ≡ true
    → (k : ℕ) × (k < w.cn_photo) × IsSuccess (w.photo_net k)
unfolding photo_execute
executed-IsSuccess w s run h =
    let (k, lt, ok) = photo_loop_flag w.photo_body w.photo_net w.cn_photo 0 [] s h run in
    (k, lt, subst (λ n. IsSuccess (w.photo_net n)) (zero-add k) ok)

-- The robot is told to continue only in a round whose photo task saw, within its limit, a reply
-- in which all tables succeeded.
pub task_poll_continue :
    (w : World) (task : Option Task) (r : Round)
    → task_poll w task ≡ some r
    → 0 < r.continue_calls
    → (task ≡ some photo_task) × ((k : ℕ) × (k < w.cn_photo) × IsSuccess (w.photo_net k))
unfolding task_poll
task_poll_continue w none r e h = absurd (ground arith)
task_poll_continue w (some base_task) r e h = absurd (ground arith)
task_poll_continue w (some photo_task) r e h =
    elim (Option-cases (photo_execute w.photo_body w.photo_net w.cn_photo)) [
      | inl fault ↦ absurd (ground arith)
      | inr (s, run) ↦ (refl, executed-IsSuccess w s run (finish_round_continue w s (ground arith)))
    ]
