-- ===== src/Tests/Timer.antt =====
-- The timers of a manager under a clock that stands still at 10.
use hzrobot.Prelude.{ℕ, zero, suc, Bool, true, false, some, List, [], ◌∷◌, ◌≡◌, refl, arith, All}
use hzrobot.Timer.{
  Timer, Manager, insert, again, cancel_timer, erase_id, erased, Command, sets, cancels, Host, Done,
  run_command, run_commands, call_timer, timer_loop, do_timer,
}
use hzrobot.Timer.Due.{do_timer_lem, IsSettled}
use hzrobot.Timer.Ends.{do_timer-ends, CommandFits, StandsStill}

abbrev due_timer : Timer
due_timer = record { id = 1; delay = 5; timestamp = 7; callback = 1; relative = false }

abbrev late_timer : Timer
late_timer = record { id = 2; delay = 20; timestamp = 30; callback = 2; relative = true }

abbrev manager : Manager
manager = record { entries = due_timer ∷ late_timer ∷ []; last_id = 2 }

-- The first callback cancels its own timer and asks to be called again.
abbrev asked : ℕ → List Command × Bool
asked zero = ([], false)
asked (suc zero) = (cancels 1 ∷ [], true)
asked (suc (suc n)) = (sets 4 9 false ∷ [], false)

abbrev host : Host Unit
host = record {
  clock = λ w. (10, w);
  fire = λ callback m w. ((asked callback).0, (asked callback).1, w);
}

abbrev left_entries : List Timer
left_entries = record due_timer { timestamp = 12 } ∷ late_timer ∷ []

abbrev left : Done Unit
left = record {
  manager = record { entries = left_entries; last_id = 2 };
  world = tt;
  called = due_timer ∷ [];
  now = 10;
  value = 2;
}

-- The timer is there again though its callback has cancelled it.
cancelled_in_callback : do_timer host 5 manager tt ≡ some left
unfolding do_timer timer_loop call_timer again insert run_commands run_command cancel_timer erase_id
    erased
cancelled_in_callback = refl

do_timer_lem_example : IsSettled left
do_timer_lem_example =
    do_timer_lem host 5 manager tt left ((omega arith, tt), (tt, tt)) cancelled_in_callback

asked-Fits : (callback : ℕ) → All (CommandFits 10) (asked callback).0
asked-Fits zero = tt
asked-Fits (suc zero) = (tt, tt)
asked-Fits (suc (suc n)) = (omega arith, tt)

still : StandsStill 10 host
still = (λ w. refl, λ callback m w. asked-Fits callback)

do_timer-ends_example : (d : Done Unit) × do_timer host 5 manager tt ≡ some d
do_timer-ends_example =
    do_timer-ends 10 host still 5 manager tt
      ((omega arith, omega arith), ((omega arith, omega arith), tt)) (omega arith)
