-- ===== src/Tests/Queue.antt =====
-- Include/queue/queue.hpp on a short schedule.
use hzrobot.Prelude.{ℕ, ◌<◌, [], ◌∷◌, ◌++◌, ◌≡◌, refl, arith, some, none, ℕ_discrete}
use hzrobot.Queue.{Queue, put, get, resume, erase, queue_clean, queue_length, get_queue_head}
use hzrobot.Queue.Steps.{got, here, next, puts, gets, resumes, start, step}
use hzrobot.Queue.Fifo.{Run-order}
use hzrobot.Queue.Wakeup.{IsAwake, Reach-IsAwake}

abbrev idle : Queue ℕ
idle = record { items = []; blocked = 0; woken = 0 }

-- A consumer goes to sleep and a producer wakes it.
abbrev waiting : Queue ℕ
waiting = (get idle).0

abbrev filled : Queue ℕ
filled = put 7 waiting

filled_lem :
    (filled.items ≡ 7 ∷ [])
    × (filled.woken ≡ 1)
    × (filled.blocked ≡ 0)
    × ((resume filled).1 ≡ some 7)
unfolding get put resume
filled_lem = (refl, refl, refl, refl)

one_woken : 0 < filled.woken
unfolding get put
one_woken = omega arith

queries :
    (queue_length filled ≡ 1)
    × (get_queue_head filled ≡ some 7)
    × (get_queue_head (queue_clean filled) ≡ none)
unfolding get put queue_length get_queue_head queue_clean
queries = (refl, refl, refl)

Run-order_example :
    idle.items ++ (([] ++ []) ++ 7 ∷ []) ++ []
    ≡ ((([] ++ got (get idle).1) ++ []) ++ got (resume filled).1) ++ (resume filled).0.items
Run-order_example =
    Run-order (next (next (next here (gets idle)) (puts 7 waiting)) (resumes filled one_woken))

Reach-IsAwake_example : IsAwake filled
Reach-IsAwake_example =
    Reach-IsAwake ℕ_discrete refl (step (step start (gets idle)) (puts 7 waiting))

abbrev three : Queue ℕ
three = record { items = 4 ∷ 5 ∷ 4 ∷ []; blocked = 0; woken = 0 }

erase_five : (erase ℕ_discrete 4 three).items ≡ 5 ∷ 4 ∷ []
unfolding erase ℕ_discrete
erase_five = refl
