-- ===== src/Timer/Ends.antt =====
-- The loop of `do_timer` ends while the clock stands still.
use hzrobot.Prelude.{
  ℕ, zero, suc, ◌+◌, ◌*◌, ◌%◌, ◌^◌, ◌≤◌, ◌<◌, Bool, true, false, ◌==◌, ltb, leb, if◌then◌else◌,
  Option, some, none, List, [], ◌∷◌, ◌++◌, All, length, ◌≡◌, refl, subst, inl, inr, arith,
  Bool-cases, Option-cases,
}
use mathlib.Core.Option
use hzrobot.Timer.{
  Timer, Manager, insert, new_timer, set_timer, erase_id, cancel_timer, clear_all, Command, sets,
  cancels, clears, Host, Done, again, run_command, run_commands, call_timer, timer_loop, do_timer,
}
use hzrobot.Timer.Laws.{insert-All, erase_id-All}

module _ (now : ℕ) where
  -- How often a timer with a time stamp can still be called at this time.
  unfoldable pub weight : ℕ → ℕ
  weight stamp = if ltb stamp now then 2 else if stamp == now then 1 else 0

  unfoldable pub load : List Timer → ℕ
  load [] = 0
  load (t ∷ ts) = weight t.timestamp + load ts

  -- The time stamp that comes next does not wrap around.
  abbrev pub Fits : Timer → Type 0
  Fits t = 0 < t.delay × now + t.delay < 2 ^ 64

  abbrev pub CommandFits : Command → Type 0
  CommandFits (sets delay callback relative) = now + delay < 2 ^ 64
  CommandFits (cancels id) = Unit
  CommandFits clears = Unit

  weight-later : (stamp : ℕ) → now < stamp → weight stamp ≡ 0
  unfolding weight
  weight-later stamp lt = ground arith

  weight-due : (stamp : ℕ) → stamp ≤ now → 0 < weight stamp
  unfolding weight
  weight-due stamp le = ground arith

  load-insert : (t : Timer) (ts : List Timer) → load (insert t ts) ≡ weight t.timestamp + load ts
  unfolding insert load
  load-insert t [] = refl
  load-insert t (u ∷ us) = elim (Bool-cases (ltb t.timestamp u.timestamp)) [
    | inl e ↦ rw e refl
    | inr e ↦ rw e (omega (arith, load-insert t us))
  ]

  load-erased :
      (b : Bool) (t : Timer) (ts us : List Timer) (o : Option (List Timer))
      → ((vs : List Timer) → o ≡ some vs → load vs ≤ load ts)
      → (if b then some ts else Option.map (◌∷◌ t) o) ≡ some us
      → load us ≤ load (t ∷ ts)
  unfolding load
  load-erased true t ts us o later e =
      let same : ts ≡ us = cc in subst (λ v. load v ≤ load (t ∷ ts)) same (omega arith)
  load-erased false t ts us none later e = absurd cc
  load-erased false t ts us (some vs) later e =
      let same : t ∷ vs ≡ us = cc in
      subst (λ v. load v ≤ load (t ∷ ts)) same (omega (arith, later vs refl))

  load-erase_id : (id : ℕ) (ts us : List Timer) → erase_id id ts ≡ some us → load us ≤ load ts
  unfolding erase_id
  load-erase_id id [] us e = absurd cc
  load-erase_id id (t ∷ ts) us e =
      load-erased (id == t.id) t ts us (erase_id id ts) (λ vs q. load-erase_id id ts vs q) e

  -- What a step of the manager keeps.
  abbrev Keeps : (before after : List Timer) → Type 0
  Keeps before after = load after ≤ load before × All Fits after

  cancel_timer-Keeps :
      (id : ℕ) (m : Manager) → All Fits m.entries → Keeps m.entries (cancel_timer id m).1.entries
  unfolding cancel_timer
  cancel_timer-Keeps id m h = elim (Bool-cases (id == 0)) [
    | inl e ↦ rw e (omega arith, h)
    | inr e ↦ rw e (elim (Option-cases (erase_id id m.entries)) [
      | inl q ↦ rw q (omega arith, h)
      | inr (us, q) ↦ rw q (load-erase_id id m.entries us q, erase_id-All Fits id m.entries us q h)
    ])
  ]

  set_timer-Keeps :
      (delay callback : ℕ) (relative : Bool) (m : Manager)
      → now + delay < 2 ^ 64
      → All Fits m.entries
      → Keeps m.entries (set_timer now delay callback relative m).1.entries
  unfolding set_timer new_timer
  set_timer-Keeps delay callback relative m fits h = elim (Bool-cases (delay == 0)) [
    | inl e ↦ rw e (omega arith, h)
    | inr e ↦
        let t = new_timer now ((m.last_id + 1) % 2 ^ 64) delay callback relative in
        let stamp : (now + delay) % 2 ^ 64 ≡ now + delay = omega (arith, fits) in
        let positive : 0 < delay = ground arith in
        rw e (
          omega (
            arith,
            load-insert t m.entries,
            weight-later ((now + delay) % 2 ^ 64) (omega (arith, stamp, positive)),
          ),
          insert-All Fits t m.entries (positive, fits) h,
        )
  ]

  weight-next :
      (stamp next : ℕ)
      → stamp ≤ now
      → stamp < next
      → weight (if ltb next now then now else next) + 1 ≤ weight stamp
  unfolding weight
  weight-next stamp next le lt = ground arith

  again-weight :
      (t : Timer)
      → t.timestamp ≤ now
      → Fits t
      → weight (again now t).timestamp + 1 ≤ weight t.timestamp
  unfolding again
  again-weight t due fits = elim (Bool-cases t.relative) [
    | inl e ↦ rw e (
        let stamp : (now + t.delay) % 2 ^ 64 ≡ now + t.delay = omega (arith, fits.1) in
        omega (
          arith,
          weight-later ((now + t.delay) % 2 ^ 64) (omega (arith, stamp, fits.0)),
          weight-due t.timestamp due,
        ))
    | inr e ↦ rw e (
        weight-next t.timestamp ((t.timestamp + t.delay) % 2 ^ 64) due (
          let small : t.timestamp + t.delay < 2 ^ 64 = omega (arith, fits.1) in
          let stamp : (t.timestamp + t.delay) % 2 ^ 64 ≡ t.timestamp + t.delay =
            omega (arith, small) in
          omega (arith, stamp, fits.0)))
  ]

  again-Fits : (t : Timer) → Fits t → Fits (again now t)
  unfolding again
  again-Fits t fits = elim (Bool-cases t.relative) [ inl e ↦ rw e fits | inr e ↦ rw e fits ]

  module _ {World : Type 0} (host : Host World) where
    -- The clock shows the same time whenever it is asked, and the timers that callbacks set fit.
    abbrev pub StandsStill : Type 0
    StandsStill =
        ((w : World) → (host.clock w).0 ≡ now)
        × ((callback : ℕ) (m : Manager) (w : World) → All CommandFits (host.fire callback m w).0)

    run_command-Keeps :
        StandsStill
        → (c : Command) (m : Manager) (w : World) → CommandFits c
        → All Fits m.entries
        → Keeps m.entries (run_command host c m w).0.entries
    unfolding run_command clear_all load
    run_command-Keeps still (sets delay callback relative) m w fit h =
        rw (still.0 w) (set_timer-Keeps delay callback relative m fit h)
    run_command-Keeps still (cancels id) m w fit h = cancel_timer-Keeps id m h
    run_command-Keeps still clears m w fit h = (omega arith, tt)

    run_commands-Keeps :
        StandsStill
        → (cs : List Command) (m : Manager) (w : World) → All CommandFits cs
        → All Fits m.entries
        → Keeps m.entries (run_commands host cs m w).0.entries
    unfolding run_commands
    run_commands-Keeps still [] m w fit h = (omega arith, h)
    run_commands-Keeps still (c ∷ cs) m w fit h =
        let r = run_command host c m w in
        let here = run_command-Keeps still c m w fit.0 h in
        let there = run_commands-Keeps still cs r.0 r.1 fit.1 here.1 in
        (omega (arith, here.0, there.0), there.1)

    call_timer-Keeps :
        StandsStill
        → (t : Timer) (m : Manager) (w : World) → t.timestamp ≤ now
        → All Fits (t ∷ m.entries)
        → (load (call_timer host now t m w).0.entries + 1 ≤ load (t ∷ m.entries))
          × All Fits (call_timer host now t m w).0.entries
          × (call_timer host now t m w).2 ≡ now
    unfolding call_timer load
    call_timer-Keeps still t m w due h =
        let asked = host.fire t.callback m w in
        let left = run_commands host asked.0 m asked.2 in
        let kept = run_commands-Keeps still asked.0 m asked.2 (still.1 t.callback m w) h.1 in
        elim (Bool-cases asked.1) [
          | inl e ↦
              rw (e, still.0 left.1)
                (
                  omega (
                    arith,
                    load-insert (again now t) left.0.entries,
                    again-weight t due h.0,
                    kept.0,
                  ),
                  insert-All Fits (again now t) left.0.entries (again-Fits t h.0) kept.1,
                  refl,
                )
          | inr e ↦ rw e (omega (arith, kept.0, weight-due t.timestamp due), kept.1, refl)
        ]

    timer_loop-ends :
        StandsStill
        → (fuel last : ℕ) (es : List Timer) (w : World) (called : List Timer) → All Fits es
        → load es < fuel
        → (d : Done World) × timer_loop host fuel now
              (record { entries = es; last_id = last })
              w
              called
            ≡ some d
    unfolding timer_loop
    timer_loop-ends still zero last es w called h enough = absurd (omega (arith, enough))
    timer_loop-ends still (suc fuel) last [] w called h enough = (_, refl)
    timer_loop-ends still (suc fuel) last (t ∷ rest) w called h enough =
        elim (Bool-cases (leb t.timestamp now)) [
          | inl q ↦
              let m : Manager = record { entries = rest; last_id = last } in
              let r = call_timer host now t m w in
              let kept = call_timer-Keeps still t m w (ground arith) h in
              rw (q, timer_loop)
                (rw (kept.2) (
                  timer_loop-ends still fuel r.0.last_id r.0.entries r.1 (called ++ t ∷ []) kept.1
                    (omega (arith, kept.0, enough))))
          | inr q ↦ rw (q, timer_loop) (_, refl)
        ]

    weight-le : (stamp : ℕ) → weight stamp ≤ 2
    unfolding weight
    weight-le stamp = ground arith

    load-length : (ts : List Timer) → load ts ≤ 2 * length ts
    unfolding load
    load-length [] = omega arith
    load-length (t ∷ ts) = omega (arith, weight-le t.timestamp, load-length ts)

    -- While the clock stands still, if the time and the delay of every timer, also of those that
    -- callbacks set, add up to less than 2 ^ 64, and no delay is 0, then `do_timer` returns: it has
    -- enough fuel with more than twice the number of timers.
    pub do_timer-ends :
        StandsStill
        → (fuel : ℕ) (m : Manager) (w : World) → All Fits m.entries
        → 2 * length m.entries < fuel
        → (d : Done World) × do_timer host fuel m w ≡ some d
    unfolding do_timer
    do_timer-ends still fuel m w = from m.last_id m.entries
      where
        from :
            (last : ℕ) (es : List Timer)
            → All Fits es
            → 2 * length es < fuel
            → (d : Done World) × do_timer host fuel (record { entries = es; last_id = last }) w
                ≡ some d
        from last [] h enough = (_, refl)
        from last (t ∷ rest) h enough = rw (still.0 w) (
            timer_loop-ends still fuel last (t ∷ rest) (host.clock w).1 [] h
              (omega (arith, load-length (t ∷ rest), enough)))
