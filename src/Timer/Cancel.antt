-- ===== src/Timer/Cancel.antt =====
-- Setting a timer and cancelling it.
use hzrobot.Prelude.{
  ℕ, ◌+◌, ◌%◌, ◌^◌, ◌≤◌, ◌<◌, Bool, true, false, ◌==◌, ltb, some, List, [], ◌∷◌, All, ◌≡◌, refl,
  inl, inr, arith, Bool-cases,
}
use hzrobot.Timer.{Timer, Manager, insert, new_timer, set_timer, erase_id, erased, cancel_timer}

same_id : (a : ℕ) → (a == a) ≡ true
same_id a = ground arith

differ : (a b : ℕ) → b < a → (a == b) ≡ false
differ a b lt = ground arith

erase_id-insert :
    (t : Timer) (ts : List Timer)
    → All (λ u. u.id < t.id) ts
    → erase_id t.id (insert t ts) ≡ some ts
unfolding erase_id insert
erase_id-insert t [] h = rw (same_id t.id) refl
erase_id-insert t (u ∷ us) h = elim (Bool-cases (ltb t.timestamp u.timestamp)) [
  | inl e ↦ rw e (rw (same_id t.id) refl)
  | inr e ↦
      let differs : (t.id == u.id) ≡ false = differ t.id u.id h.0 in
      rw e (rw (differs, erase_id-insert t us h.1) refl)
]

All-new : (id : ℕ) (ts : List Timer) → All (λ u. u.id ≤ id) ts → All (λ u. u.id < id + 1) ts
All-new id [] h = tt
All-new id (t ∷ ts) h = (omega (arith, h.0), All-new id ts h.1)

-- Where no timer has an identity above the last one that was given, and the identities are not used
-- up, a timer that is set with a delay other than 0 can be cancelled by its identity, and the
-- timers are then those before it was set.
cancel_timer-set_timer :
    (now delay callback : ℕ) (relative : Bool) (m : Manager)
    → 0 < delay
    → m.last_id + 1 < 2 ^ 64
    → All (λ u. u.id ≤ m.last_id) m.entries
    → cancel_timer
        (set_timer now delay callback relative m).0
        (set_timer now delay callback relative m).1
      ≡ (true, record m { last_id = m.last_id + 1 })
unfolding cancel_timer set_timer new_timer erased
cancel_timer-set_timer now delay callback relative m positive room h =
    let some_delay : (delay == 0) ≡ false = differ delay 0 positive in
    let id : (m.last_id + 1) % 2 ^ 64 ≡ m.last_id + 1 = omega (arith, room) in
    let given : (m.last_id + 1 == 0) ≡ false = differ (m.last_id + 1) 0 (omega arith) in
    rw (some_delay) (
      rw id (
        rw given (
          rw
            (erase_id-insert (new_timer now (m.last_id + 1) delay callback relative) m.entries
              (All-new m.last_id m.entries h))
            refl)))
