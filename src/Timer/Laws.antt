-- ===== src/Timer/Laws.antt =====
-- The order of the timers under each operation of `timer_manager`, and setting and cancelling.
use hzrobot.Prelude.{
  ℕ, ◌+◌, ◌%◌, ◌^◌, ◌≤◌, Bool, true, false, ◌==◌, ltb, if◌then◌else◌, Option, some, none, List, [],
  ◌∷◌, All, ◌≡◌, refl, subst, inl, inr, arith, Bool-cases, Option-cases,
}
use mathlib.Core.Option
use hzrobot.Timer.{
  Timer, Manager, insert, new_timer, set_timer, erase_id, cancel_timer, clear_all, Command, sets,
  cancels, clears, Host, again, run_command, run_commands, call_timer,
}

-- Every timer stands before those with later time stamps.
abbrev pub IsSorted : List Timer → Type 0
IsSorted [] = Unit
IsSorted (t ∷ ts) = All (λ u. t.timestamp ≤ u.timestamp) ts × IsSorted ts

module _ (P : Timer → Type 0) where
  pub insert-All : (t : Timer) (ts : List Timer) → P t → All P ts → All P (insert t ts)
  unfolding insert
  insert-All t [] p h = (p, tt)
  insert-All t (u ∷ us) p h = elim (Bool-cases (ltb t.timestamp u.timestamp)) [
    | inl e ↦ rw e (p, h)
    | inr e ↦ rw e (h.0, insert-All t us p h.1)
  ]

  erased-All :
      (b : Bool) (t : Timer) (ts us : List Timer) (o : Option (List Timer))
      → ((vs : List Timer) → o ≡ some vs → All P vs)
      → All P (t ∷ ts)
      → (if b then some ts else Option.map (◌∷◌ t) o) ≡ some us
      → All P us
  erased-All true t ts us o later h e = let same : ts ≡ us = cc in subst (All P) same h.1
  erased-All false t ts us none later h e = absurd cc
  erased-All false t ts us (some vs) later h e =
      let same : t ∷ vs ≡ us = cc in subst (All P) same (h.0, later vs refl)

  pub erase_id-All : (id : ℕ) (ts us : List Timer) → erase_id id ts ≡ some us → All P ts → All P us
  unfolding erase_id
  erase_id-All id [] us e h = absurd cc
  erase_id-All id (t ∷ ts) us e h =
      erased-All (id == t.id) t ts us (erase_id id ts) (λ vs q. erase_id-All id ts vs q h.1) h e

All-le :
    (a b : ℕ) (ts : List Timer)
    → a ≤ b
    → All (λ u. b ≤ u.timestamp) ts
    → All (λ u. a ≤ u.timestamp) ts
All-le a b [] le h = tt
All-le a b (t ∷ ts) le h = (omega (arith, h.0), All-le a b ts le h.1)

pub insert-IsSorted : (t : Timer) (ts : List Timer) → IsSorted ts → IsSorted (insert t ts)
unfolding insert
insert-IsSorted t [] h = (tt, tt)
insert-IsSorted t (u ∷ us) h = elim (Bool-cases (ltb t.timestamp u.timestamp)) [
  | inl e ↦ rw e ((ground arith, All-le t.timestamp u.timestamp us (ground arith) h.0), h)
  | inr e ↦ rw e (
    insert-All (λ v. u.timestamp ≤ v.timestamp) t us (ground arith) h.0,
    insert-IsSorted t us h.1,
  )
]

erased-IsSorted :
    (b : Bool) (t : Timer) (ts us : List Timer) (o : Option (List Timer))
    → ((vs : List Timer) → o ≡ some vs → IsSorted vs × All (λ u. t.timestamp ≤ u.timestamp) vs)
    → IsSorted (t ∷ ts)
    → (if b then some ts else Option.map (◌∷◌ t) o) ≡ some us
    → IsSorted us
erased-IsSorted true t ts us o later h e = let same : ts ≡ us = cc in subst IsSorted same h.1
erased-IsSorted false t ts us none later h e = absurd cc
erased-IsSorted false t ts us (some vs) later h e =
    let same : t ∷ vs ≡ us = cc in subst IsSorted same ((later vs refl).1, (later vs refl).0)

pub erase_id-IsSorted :
    (id : ℕ) (ts us : List Timer) → erase_id id ts ≡ some us → IsSorted ts → IsSorted us
unfolding erase_id
erase_id-IsSorted id [] us e h = absurd cc
erase_id-IsSorted id (t ∷ ts) us e h =
    erased-IsSorted (id == t.id) t ts us (erase_id id ts)
      (λ vs q. (
        erase_id-IsSorted id ts vs q h.1,
        erase_id-All (λ u. t.timestamp ≤ u.timestamp) id ts vs q h.0,
      ))
      h e

pub cancel_timer-IsSorted :
    (id : ℕ) (m : Manager) → IsSorted m.entries → IsSorted (cancel_timer id m).1.entries
unfolding cancel_timer
cancel_timer-IsSorted id m h = elim (Bool-cases (id == 0)) [
  | inl e ↦ rw e h
  | inr e ↦ rw e (elim (Option-cases (erase_id id m.entries)) [
    | inl q ↦ rw q h
    | inr (us, q) ↦ rw q (erase_id-IsSorted id m.entries us q h)
  ])
]

pub set_timer-IsSorted :
    (now delay callback : ℕ) (relative : Bool) (m : Manager)
    → IsSorted m.entries
    → IsSorted (set_timer now delay callback relative m).1.entries
unfolding set_timer
set_timer-IsSorted now delay callback relative m h = elim (Bool-cases (delay == 0)) [
  | inl e ↦ rw e h
  | inr e ↦ rw e (
      insert-IsSorted (new_timer now ((m.last_id + 1) % 2 ^ 64) delay callback relative) m.entries
        h)
]

module _ {World : Type 0} (host : Host World) where
  run_command-IsSorted :
      (c : Command) (m : Manager) (w : World)
      → IsSorted m.entries
      → IsSorted (run_command host c m w).0.entries
  unfolding run_command clear_all
  run_command-IsSorted (sets delay callback relative) m w h =
      set_timer-IsSorted (host.clock w).0 delay callback relative m h
  run_command-IsSorted (cancels id) m w h = cancel_timer-IsSorted id m h
  run_command-IsSorted clears m w h = tt

  run_commands-IsSorted :
      (cs : List Command) (m : Manager) (w : World)
      → IsSorted m.entries
      → IsSorted (run_commands host cs m w).0.entries
  unfolding run_commands
  run_commands-IsSorted [] m w h = h
  run_commands-IsSorted (c ∷ cs) m w h =
      let r = run_command host c m w in
      run_commands-IsSorted cs r.0 r.1 (run_command-IsSorted c m w h)

  pub call_timer-IsSorted :
      (now : ℕ) (t : Timer) (m : Manager) (w : World)
      → IsSorted m.entries
      → IsSorted (call_timer host now t m w).0.entries
  unfolding call_timer
  call_timer-IsSorted now t m w h =
      let asked = host.fire t.callback m w in
      let left = run_commands host asked.0 m asked.2 in
      let kept = run_commands-IsSorted asked.0 m asked.2 h in
      elim (Bool-cases asked.1) [
        | inl e ↦ rw e (insert-IsSorted (again (host.clock left.1).0 t) left.0.entries kept)
        | inr e ↦ rw e kept
      ]
