-- ===== src/Queue.antt =====
-- `CRequestQueue` of Include/queue/queue.hpp: a list behind a mutex, and a condition variable on
-- which `Get` waits. Every method but `IsEmpty` and `GetQueueHead` holds the mutex from its first
-- line to its return or to its wait, so a method is one step between whole states.
pub mod Steps
pub mod Fifo
pub mod Wakeup
pub mod Erase
use hzrobot.Prelude.{
  ℕ, suc, zero, ◌+◌, ◌-◌, Bool, true, false, Option, some, none, List, [], ◌∷◌, ◌++◌, length, ite,
}

module _ {ℓ} (A : Type ℓ) where
  -- `items` is `m_list`. Of the threads inside `Get`, `blocked` sleep in `m_condGet.wait`, and
  -- `woken` were notified and have not got the mutex back yet.
  pub record Queue : Type ℓ where
    pub items : List A
    pub blocked : ℕ
    pub woken : ℕ

-- `m_condGet.notify_one()`: the threads that sleep and the threads that were notified, after it.
unfoldable pub notify_one : ℕ → ℕ → ℕ × ℕ
notify_one zero woken = (zero, woken)
notify_one (suc blocked) woken = (blocked, woken + 1)

module _ {ℓ} {A : Type ℓ} where
  unfoldable pub put : A → Queue A → Queue A
  unfolding notify_one
  put item q =
      let (blocked', woken') = notify_one q.blocked q.woken in
      record { items = q.items ++ item ∷ []; blocked = blocked'; woken = woken' }

  -- `while (IsEmpty()) wait; item = front; pop_front`: a thread that holds the mutex takes the
  -- front, or goes to sleep.
  unfoldable pub take_front : List A → ℕ → ℕ → Queue A × Option A
  take_front [] blocked woken = (record { items = []; blocked = blocked + 1; woken = woken }, none)
  take_front (x ∷ xs) blocked woken =
      (record { items = xs; blocked = blocked; woken = woken }, some x)

  -- A thread enters `Get`.
  unfoldable pub get : Queue A → Queue A × Option A
  unfolding take_front
  get q = take_front q.items q.blocked q.woken

  -- A notified thread gets the mutex back inside `Get`, and tests again.
  unfoldable pub resume : Queue A → Queue A × Option A
  unfolding take_front
  resume q = take_front q.items q.blocked (q.woken - 1)

  -- `Erase` with its early `break`.
  unfoldable pub erase_first : Discrete A → A → List A → List A
  erase_first d item [] = []
  erase_first d item (x ∷ xs) = ite (d item x) xs (x ∷ erase_first d item xs)

  unfoldable pub erase : Discrete A → A → Queue A → Queue A
  unfolding erase_first
  erase d item q = record q { items = erase_first d item q.items }

  unfoldable pub is_empty : List A → Bool
  is_empty [] = true
  is_empty (_ ∷ _) = false

  unfoldable pub queue_clean : Queue A → Queue A
  unfolding is_empty
  queue_clean q = elim (is_empty q.items) [ true ↦ q | false ↦ record q { items = [] } ]

  unfoldable pub queue_length : Queue A → ℕ
  queue_length q = length q.items

  -- `none` is the null pointer that the code returns for an empty queue.
  unfoldable pub get_queue_head : Queue A → Option A
  get_queue_head q = elim q.items [ [] ↦ none | x ∷ _ ↦ some x ]
