-- ===== src/Timer/Due.antt =====
-- What `do_timer` leaves behind.
use hzrobot.Prelude.{
  ℕ, zero, suc, ◌+◌, ◌-◌, ◌≤◌, ◌<◌, leb, some, List, [], ◌∷◌, ◌++◌, All, ◌≡◌, refl, subst, inl, inr,
  arith, Bool-cases,
}
use hzrobot.Timer.{Timer, Manager, Host, Done, call_timer, timer_loop, do_timer}
use hzrobot.Timer.Laws.{IsSorted, call_timer-IsSorted}

-- No timer is due at the time, and the value is the time until the first one.
abbrev pub IsWaiting : List Timer → (now value : ℕ) → Type 0
IsWaiting [] now value = value ≡ 0
IsWaiting (t ∷ ts) now value =
    All (λ u. now < u.timestamp) (t ∷ ts) × value + now ≡ t.timestamp × 0 < value

abbrev pub IsSettled : {World : Type 0} → Done World → Type 0
IsSettled d = IsSorted d.manager.entries × IsWaiting d.manager.entries d.now d.value

All-lt :
    (a b : ℕ) (ts : List Timer)
    → a < b
    → All (λ u. b ≤ u.timestamp) ts
    → All (λ u. a < u.timestamp) ts
All-lt a b [] lt h = tt
All-lt a b (t ∷ ts) lt h = (omega (arith, h.0), All-lt a b ts lt h.1)

module _ {World : Type 0} (host : Host World) where
  timer_loop_lem :
      (fuel now last : ℕ) (es : List Timer) (w : World) (called : List Timer) (d : Done World)
      → IsSorted es
      → timer_loop host fuel now (record { entries = es; last_id = last }) w called ≡ some d
      → IsSettled d
  unfolding timer_loop
  timer_loop_lem zero now last es w called d s = λ e. absurd cc
  timer_loop_lem (suc fuel) now last [] w called d s = λ e.
      let same : record {
        manager = record { entries = []; last_id = last };
        world = w;
        called = called;
        now = now;
        value = 0;
      }
          ≡ d =
        cc in
      subst IsSettled same (tt, refl)
  timer_loop_lem (suc fuel) now last (t ∷ rest) w called d s =
      elim (Bool-cases (leb t.timestamp now)) [
        | inl q ↦
            rw (q, timer_loop)
              (λ e.
                let r = call_timer host now t (record { entries = rest; last_id = last }) w in
                timer_loop_lem fuel r.2 r.0.last_id r.0.entries r.1 (called ++ t ∷ []) d
                  (call_timer-IsSorted host now t (record { entries = rest; last_id = last }) w s.1)
                  e)
        | inr q ↦
            rw (q, timer_loop)
              (λ e.
                let same : record {
                  manager = record { entries = t ∷ rest; last_id = last };
                  world = w;
                  called = called;
                  now = now;
                  value = t.timestamp - now;
                }
                    ≡ d =
                  cc in
                subst IsSettled same (
                  s,
                  (
                    (ground arith, All-lt now t.timestamp rest (ground arith) s.0),
                    ground arith,
                    ground arith,
                  ),
                ))
      ]

  -- When `do_timer` returns from a sorted manager, the manager is sorted, none of its timers is due
  -- at the last time shown, and the value is the time until the first of them, or 0 if there is
  -- none.
  pub do_timer_lem :
      (fuel : ℕ) (m : Manager) (w : World) (d : Done World)
      → IsSorted m.entries
      → do_timer host fuel m w ≡ some d
      → IsSettled d
  unfolding do_timer
  do_timer_lem fuel m w d = from m.last_id m.entries
    where
      from :
          (last : ℕ) (es : List Timer)
          → IsSorted es
          → do_timer host fuel (record { entries = es; last_id = last }) w ≡ some d
          → IsSettled d
      from last [] s e =
          let same : record {
            manager = record { entries = []; last_id = last };
            world = w;
            called = [];
            now = 0;
            value = 0;
          }
              ≡ d =
            cc in
          subst IsSettled same (tt, refl)
      from last (t ∷ rest) s e =
          let shown = host.clock w in timer_loop_lem fuel shown.0 last (t ∷ rest) shown.1 [] d s e
