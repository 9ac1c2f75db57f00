-- ===== src/Task/Retry.antt =====
-- The two retry loops: when they stop, how often they call, and what they log.
use Prim.Native.Nat.add
use native.Mathlib.Nat.{zero-add, add-zero}
use hzrobot.Prelude.{
  ℕ, zero, suc, ◌+◌, ◌-◌, ◌<◌, Bool, true, false, some, none, List, [], ◌∷◌, ◌++◌, ◌≡◌, ◌≢◌, refl,
  sym, ap, ap₂, subst, ◌∙◌, append-nil, append_assoc, arith, Bytes, ◌⊎◌,
}
use hzrobot.Task.{
  photo_faild, photo_success, num_unsuccess, Record, Attempt, call_failed, call_threw, call_crashed,
  replied, photo_attempt, Loop, photo_loop, photo_execute,
}

-- The call failed or threw, or the reply counts other than all tables as successful.
abbrev pub IsRetried : Attempt → Type 0
IsRetried call_failed = Unit
IsRetried call_threw = Unit
IsRetried call_crashed = ⊥
IsRetried (replied r) =
    (total success : ℕ) × (r.tablenum ≡ some total)
    × (r.successnum ≡ some success)
    × (success ≢ total)

-- The reply counts all tables as successful.
abbrev pub IsSuccess : Attempt → Type 0
IsSuccess call_failed = ⊥
IsSuccess call_threw = ⊥
IsSuccess call_crashed = ⊥
IsSuccess (replied r) = (total : ℕ) × (r.tablenum ≡ some total) × (r.successnum ≡ some total)

-- A reply without one of the two fields.
abbrev pub LacksField : Attempt → Type 0
LacksField call_failed = ⊥
LacksField call_threw = ⊥
LacksField call_crashed = ⊥
LacksField (replied r) = (r.tablenum ≡ none) ⊎ (r.successnum ≡ none)

abbrev pub text_of : Bytes → Attempt → Bytes
text_of config_body (replied r) = r.body
text_of config_body _ = config_body

-- What is logged for an attempt that is retried.
abbrev pub retry_record : Bytes → Attempt → Record
retry_record config_body (replied r) = (num_unsuccess, r.body)
retry_record config_body _ = (photo_faild, config_body)

-- What is logged for the `k` calls from the `n`-th on.
abbrev pub retry_records : Bytes → (ℕ → Attempt) → ℕ → ℕ → List Record
retry_records config_body net n zero = []
retry_records config_body net n (suc k) =
    retry_record config_body (net n) ∷ retry_records config_body net (n + 1) k

photo_attempt_retried :
    (body : Bytes) (a : Attempt)
    → IsRetried a
    → photo_attempt body false a ≡ some (false, retry_record body a)
unfolding photo_attempt
photo_attempt_retried body call_failed h = refl
photo_attempt_retried body call_threw h = refl
photo_attempt_retried body call_crashed h = absurd h
photo_attempt_retried body (replied r) (t, s, ht, hs, ne) = ground arith

photo_attempt_success :
    (body : Bytes) (a : Attempt)
    → IsSuccess a
    → photo_attempt body false a ≡ some (true, (photo_success, text_of body a))
unfolding photo_attempt
photo_attempt_success body call_failed h = absurd h
photo_attempt_success body call_threw h = absurd h
photo_attempt_success body call_crashed h = absurd h
photo_attempt_success body (replied r) (t, ht, hs) = ground arith

photo_attempt_lacks :
    (body : Bytes) (a : Attempt) → LacksField a → photo_attempt body false a ≡ none
unfolding photo_attempt
photo_attempt_lacks body call_failed h = absurd h
photo_attempt_lacks body call_threw h = absurd h
photo_attempt_lacks body call_crashed h = absurd h
photo_attempt_lacks body (replied r) h = ground arith

abbrev pub unfinished : ℕ → List Record → Loop
unfinished calls log = record { flag = false; calls = calls; log = log }

module _ (body : Bytes) (net : ℕ → Attempt) where
  photo_loop_done :
      (left calls : ℕ) (log : List Record)
      → photo_loop body net left (record { flag = true; calls = calls; log = log })
        ≡ some (record { flag = true; calls = calls; log = log })
  unfolding photo_loop
  photo_loop_done zero calls log = refl
  photo_loop_done (suc left) calls log = refl

  -- One attempt that reads through no null pointer.
  pub photo_loop_attempt :
      (left calls : ℕ) (log : List Record) (flag : Bool) (entry : Record)
      → photo_attempt body false (net calls) ≡ some (flag, entry)
      → photo_loop body net (suc left) (record { flag = false; calls = calls; log = log })
        ≡ photo_loop body net left
            (record { flag = flag; calls = calls + 1; log = log ++ entry ∷ [] })
  unfolding photo_loop
  photo_loop_attempt left calls log flag entry e = rw (e, photo_loop)

  -- Attempts that are retried use up the rounds one by one.
  photo_loop_retries :
      (k left calls : ℕ) (log : List Record)
      → ((j : ℕ) → j < k → IsRetried (net (calls + j)))
      → photo_loop body net (k + left) (record { flag = false; calls = calls; log = log })
        ≡ photo_loop body net left (record {
          flag = false;
          calls = calls + k;
          log = log ++ retry_records body net calls k;
        })
  photo_loop_retries zero left calls log h =
      ap₂ (λ c l. photo_loop body net (zero + left) (unfinished c l)) (omega arith)
        (sym (append-nil log))
      ∙ ap (λ n. photo_loop body net n (unfinished (calls + 0) (log ++ []))) (add.zero left)
  photo_loop_retries (suc k) left calls log h =
      let first : IsRetried (net calls) =
        subst (λ n. IsRetried (net n)) (omega arith) (h 0 (omega arith)) in
      ap (λ n. photo_loop body net n (unfinished calls log)) (add.suc k left)
      ∙ photo_loop_attempt (k + left) calls log false _
          (photo_attempt_retried body (net calls) first)
      ∙ photo_loop_retries k left (calls + 1) (log ++ retry_record body (net calls) ∷ [])
          (λ j p. subst (λ n. IsRetried (net n)) (omega arith) (h (suc j) (omega arith)))
      ∙ ap₂ (λ c l. photo_loop body net left (unfinished c l)) (omega arith) (append_assoc log _ _)

  pub photo_loop_null :
      (left calls : ℕ) (log : List Record)
      → photo_attempt body false (net calls) ≡ none
      → photo_loop body net (suc left) (record { flag = false; calls = calls; log = log }) ≡ none
  unfolding photo_loop
  photo_loop_null left calls log e = rw (e, photo_loop)

  from_zero :
      (k : ℕ) → ((j : ℕ) → j < k → IsRetried (net j)) → (j : ℕ) → j < k → IsRetried (net (0 + j))
  from_zero k h j p = subst (λ n. IsRetried (net n)) (sym (zero-add j)) (h j p)

  -- If the first `k` attempts are retried and the next one succeeds within the limit, the task
  -- is finished after `k + 1` calls, and one record for each call is logged, the success last.
  pub photo_execute_success :
      (cn_photo k : ℕ)
      → k < cn_photo
      → ((j : ℕ) → j < k → IsRetried (net j))
      → IsSuccess (net k)
      → photo_execute body net cn_photo
        ≡ some (record {
          flag = true;
          calls = k + 1;
          log = retry_records body net 0 k ++ (photo_success, text_of body (net k)) ∷ [];
        })
  unfolding photo_execute
  photo_execute_success cn_photo k lt h success =
      let e : cn_photo ≡ k + suc (cn_photo - k - 1) = omega arith in
      ap (λ n. photo_loop body net n (unfinished 0 [])) e
      ∙ photo_loop_retries k (suc (cn_photo - k - 1)) 0 [] (from_zero k h)
      ∙ ap
          (λ n.
            photo_loop body net (suc (cn_photo - k - 1))
              (unfinished n (retry_records body net 0 k)))
          (zero-add k)
      ∙ photo_loop_attempt _ k _ true _ (photo_attempt_success body (net k) success)
      ∙ photo_loop_done _ _ _

  -- If each of the `cn_photo` attempts of the limit is one to retry, the call failed or threw or its
  -- reply has both numbers and they differ, then the task gives up after exactly `cn_photo` calls,
  -- with one record for each.
  pub photo_execute_exhausted :
      (cn_photo : ℕ)
      → ((j : ℕ) → j < cn_photo → IsRetried (net j))
      → photo_execute body net cn_photo
        ≡ some (record { flag = false; calls = cn_photo; log = retry_records body net 0 cn_photo })
  unfolding photo_execute photo_loop
  photo_execute_exhausted cn_photo h =
      ap (λ n. photo_loop body net n (unfinished 0 [])) (sym (add-zero cn_photo))
      ∙ photo_loop_retries cn_photo 0 0 [] (from_zero cn_photo h)
      ∙ ap (λ n. some (unfinished n (retry_records body net 0 cn_photo))) (zero-add cn_photo)

  -- A reply without `tablenum` or `successnum` makes the task read through a null pointer.
  photo_execute_null :
      (cn_photo k : ℕ)
      → k < cn_photo
      → ((j : ℕ) → j < k → IsRetried (net j))
      → LacksField (net k)
      → photo_execute body net cn_photo ≡ none
  unfolding photo_execute
  photo_execute_null cn_photo k lt h lacks =
      let e : cn_photo ≡ k + suc (cn_photo - k - 1) = omega arith in
      ap (λ n. photo_loop body net n (unfinished 0 [])) e
      ∙ photo_loop_retries k (suc (cn_photo - k - 1)) 0 [] (from_zero k h)
      ∙ ap
          (λ n.
            photo_loop body net (suc (cn_photo - k - 1))
              (unfinished n (retry_records body net 0 k)))
          (zero-add k)
      ∙ photo_loop_null _ k _ (photo_attempt_lacks body (net k) lacks)
