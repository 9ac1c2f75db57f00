-- ===== src/Queue/Wakeup.antt =====
-- No wake-up is lost.
use hzrobot.Prelude.{
  ℕ, zero, suc, ◌+◌, ◌≤◌, ◌<◌, List, [], ◌∷◌, ◌≡◌, length, length-append, arith, if_pos, if_neg,
}
use hzrobot.Queue.{Queue, put, get, resume, take_front, erase, erase_first, queue_clean}
use hzrobot.Queue.Steps.{
  Step, puts, gets, resumes, wakes_spuriously, Reach, start, step, erases, cleans,
}

module _ {ℓ} {A : Type ℓ} where
  -- While a thread sleeps, every queued item has a notified thread that is on its way.
  abbrev pub IsAwake : Queue A → Type 0
  IsAwake q = 0 < q.blocked → length q.items ≤ q.woken

  put-IsAwake :
      (x : A) (items : List A) (b w : ℕ)
      → IsAwake (record { items = items; blocked = b; woken = w })
      → IsAwake (put x (record { items = items; blocked = b; woken = w }))
  unfolding put
  put-IsAwake x items zero w h = omega arith
  put-IsAwake x items (suc b) w h =
      λ p. omega (arith, h (omega arith), length-append items (x ∷ []))

  take_front-IsAwake :
      (xs : List A) (b w : ℕ) → (0 < b → length xs ≤ w + 1) → IsAwake (take_front xs b w).0
  unfolding take_front
  take_front-IsAwake [] b w h = λ p. omega arith
  take_front-IsAwake (x ∷ xs) b w h = λ p. omega (arith, h p)

  Step-IsAwake : {q r : Queue A} {ps gs : List A} → Step q ps gs r → IsAwake q → IsAwake r
  unfolding get resume
  Step-IsAwake (puts x q) h = put-IsAwake x q.items q.blocked q.woken h
  Step-IsAwake (gets q) h = take_front-IsAwake q.items q.blocked q.woken (λ p. omega (arith, h p))
  Step-IsAwake (resumes q p) h = take_front-IsAwake q.items q.blocked _ (λ b. omega (arith, h b))
  Step-IsAwake (wakes_spuriously q p) h = λ b. omega (arith, h p)

  length-erase_first :
      (d : Discrete A) (x : A) (xs : List A) → length (erase_first d x xs) ≤ length xs
  unfolding erase_first
  length-erase_first d x [] = omega arith
  length-erase_first d x (y ∷ ys) = elim (d x y) [
    | yes p ↦ rw (if_pos (d x y) p) (omega arith)
    | no p ↦ rw (if_neg (d x y) p) (omega (arith, length-erase_first d x ys))
  ]

  queue_clean-IsAwake : (q : Queue A) → IsAwake q → IsAwake (queue_clean q)
  unfolding queue_clean
  queue_clean-IsAwake q h = ground arith

  -- From a queue that nobody waits on, every reachable state is awake: as long as a thread sleeps
  -- inside `Get`, there are at least as many notified threads as queued items. So no item is
  -- left for a sleeper to which no notification is on its way.
  pub Reach-IsAwake : (d : Discrete A) {q r : Queue A} → q.blocked ≡ 0 → Reach d q r → IsAwake r
  unfolding erase
  Reach-IsAwake d e start = omega arith
  Reach-IsAwake d e (step run st) = Step-IsAwake st (Reach-IsAwake d e run)
  Reach-IsAwake d e (erases {r} x run) =
      λ p. omega (arith, Reach-IsAwake d e run p, length-erase_first d x r.items)
  Reach-IsAwake d e (cleans {r} run) = queue_clean-IsAwake r (Reach-IsAwake d e run)
