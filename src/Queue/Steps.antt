-- ===== src/Queue/Steps.antt =====
-- The interleavings of the threads that use a queue.
use hzrobot.Prelude.{◌+◌, ◌-◌, ◌<◌, Option, some, none, List, [], ◌∷◌, ◌++◌}
use hzrobot.Queue.{Queue, put, get, resume, erase, queue_clean}

-- What a thread gets from a call that may wait.
abbrev pub got {ℓ} : {A : Type ℓ} → Option A → List A
got none = []
got (some x) = x ∷ []

module _ {ℓ} {A : Type ℓ} where
  -- One step of one thread, with the items that it puts and gets.
  pub data Step : Queue A → List A → List A → Queue A → Type ℓ where
    puts : (x : A) (q : Queue A) → Step q (x ∷ []) [] (put x q)
    gets : (q : Queue A) → Step q [] (got (get q).1) (get q).0
    resumes : (q : Queue A) → 0 < q.woken → Step q [] (got (resume q).1) (resume q).0
    -- A condition variable may wake a thread that nobody notified.
    wakes_spuriously :
        (q : Queue A)
        → 0 < q.blocked
        → Step q [] [] (record q { blocked = q.blocked - 1; woken = q.woken + 1 })

  -- The steps of the producers and the consumers, with all that was put and got, in order.
  pub data Run (q : Queue A) : List A → List A → Queue A → Type ℓ where
    here : Run q [] [] q
    next :
        {ps gs ps' gs' : List A} {r s : Queue A}
        → Run q ps gs r
        → Step r ps' gs' s
        → Run q (ps ++ ps') (gs ++ gs') s

  -- The same with the calls that take items away without delivering them.
  pub data Reach (d : Discrete A) (q : Queue A) : Queue A → Type ℓ where
    start : Reach d q q
    step : {ps gs : List A} {r s : Queue A} → Reach d q r → Step r ps gs s → Reach d q s
    erases : {r : Queue A} (x : A) → Reach d q r → Reach d q (erase d x r)
    cleans : {r : Queue A} → Reach d q r → Reach d q (queue_clean r)
