-- ===== src/Timer.antt =====
-- `timer_manager` of Include/util/timer.hpp. The multimap is the list of its timers in the order of
-- their time stamps; a timer is inserted behind those with the same one. A callback is a number
-- that the world knows: what it does to the manager is a list of the manager's operations.
pub mod Laws
pub mod Cancel
pub mod Due
pub mod Ends
use hzrobot.Prelude.{
  ℕ, zero, suc, ◌+◌, ◌-◌, ◌%◌, ◌^◌, Bool, true, false, ◌==◌, ltb, leb, if◌then◌else◌, Option, some,
  none, List, [], ◌∷◌, ◌++◌,
}
use mathlib.Core.Option

pub record Timer : Type 0 where
  pub id : ℕ
  pub delay : ℕ
  pub timestamp : ℕ
  pub callback : ℕ
  pub relative : Bool

-- The multimap, and the identity that was given last.
pub record Manager : Type 0 where
  pub entries : List Timer
  pub last_id : ℕ

abbrev pub invalid_timer_id : ℕ
invalid_timer_id = 0

unfoldable pub insert : Timer → List Timer → List Timer
insert t [] = t ∷ []
insert t (u ∷ us) =
    let later = u ∷ insert t us in if ltb t.timestamp u.timestamp then t ∷ u ∷ us else later

unfoldable pub new_timer : (now id delay callback : ℕ) → Bool → Timer
new_timer now id delay callback relative = record {
  id = id;
  delay = delay;
  timestamp = (now + delay) % 2 ^ 64;
  callback = callback;
  relative = relative;
}

-- With what the clock shows; the result is the identity.
unfoldable pub set_timer : (now delay callback : ℕ) → Bool → Manager → ℕ × Manager
unfolding new_timer
set_timer now delay callback relative m =
    let id = (m.last_id + 1) % 2 ^ 64 in
    if delay == 0 then (invalid_timer_id, m) else (
      id,
      record {
        entries = insert (new_timer now id delay callback relative) m.entries;
        last_id = id;
      },
    )

-- The search of `cancel_timer`; `none` where no timer has the identity.
unfoldable pub erase_id : ℕ → List Timer → Option (List Timer)
erase_id id [] = none
erase_id id (t ∷ ts) =
    let later = Option.map (◌∷◌ t) (erase_id id ts) in if id == t.id then some ts else later

unfoldable pub erased : Manager → Option (List Timer) → Bool × Manager
erased m none = (false, m)
erased m (some ts) = (true, record m { entries = ts })

unfoldable pub cancel_timer : ℕ → Manager → Bool × Manager
unfolding erased
cancel_timer id m = if id == invalid_timer_id then (false, m) else erased m (erase_id id m.entries)

unfoldable pub clear_all : Manager → Manager
clear_all m = record m { entries = [] }

-- What a callback asks of the manager.
pub data Command : Type 0 where
  sets : (delay callback : ℕ) → Bool → Command
  cancels : ℕ → Command
  clears : Command

module _ (World : Type 0) where
  -- The clock, and the callbacks: the operations that one performs, and whether it is to be called
  -- again.
  pub record Host : Type 0 where
    pub clock : World → ℕ × World
    pub fire : ℕ → Manager → World → List Command × Bool × World

-- What `do_timer` leaves: the manager, the world, the timers in the order in which they were
-- called, what the clock showed last, and the value.
pub record Done (World : Type 0) : Type 0 where
  pub manager : Manager
  pub world : World
  pub called : List Timer
  pub now : ℕ
  pub value : ℕ

-- A timer that is to be called again.
unfoldable pub again : ℕ → Timer → Timer
again now t =
    let next = (t.timestamp + t.delay) % 2 ^ 64 in
    if t.relative
    then record t { timestamp = (now + t.delay) % 2 ^ 64 }
    else record t { timestamp = if ltb next now then now else next }

module _ {World : Type 0} (host : Host World) where
  unfoldable pub run_command : Command → Manager → World → Manager × World
  run_command (sets delay callback relative) m w =
      let (now, w') = host.clock w in
      ((set_timer now delay callback relative m).1, if delay == 0 then w else w')
  run_command (cancels id) m w = ((cancel_timer id m).1, w)
  run_command clears m w = (clear_all m, w)

  unfoldable pub run_commands : List Command → Manager → World → Manager × World
  unfolding run_command
  run_commands [] m w = (m, w)
  run_commands (c ∷ cs) m w = let (m', w') = run_command c m w in run_commands cs m' w'

  -- The call of a timer that was taken out: the manager, the world and what the clock shows then.
  unfoldable pub call_timer : ℕ → Timer → Manager → World → Manager × World × ℕ
  call_timer now t m w =
      let (commands, repeat, w1) = host.fire t.callback m w in
      let (m2, w2) = run_commands commands m w1 in
      let (now', w3) = host.clock w2 in
      if repeat
      then (record m2 { entries = insert (again now' t) m2.entries }, w3, now')
      else (m2, w2, now)

  -- The loop of `do_timer`; `none` means that the fuel is used up.
  unfoldable pub timer_loop : ℕ → ℕ → Manager → World → List Timer → Option (Done World)
  timer_loop zero now m w called = none
  timer_loop (suc fuel) now m w called = elim m.entries [
    | [] ↦ some (record { manager = m; world = w; called = called; now = now; value = 0 })
    | (t ∷ rest) ↦ elim (leb t.timestamp now) [
      | false ↦
          some (record {
            manager = m;
            world = w;
            called = called;
            now = now;
            value = t.timestamp - now;
          })
      | true ↦
          let (m', w', now') = call_timer now t (record m { entries = rest }) w in
          timer_loop fuel now' m' w' (called ++ t ∷ [])
    ]
  ]

  -- An empty manager does not look at the clock.
  unfoldable pub do_timer : ℕ → Manager → World → Option (Done World)
  do_timer fuel m w = elim m.entries [
    | [] ↦ some (record { manager = m; world = w; called = []; now = 0; value = 0 })
    | (_ ∷ _) ↦ let (now, w') = host.clock w in timer_loop fuel now m w' []
  ]
