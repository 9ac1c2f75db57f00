-- ===== src/Tests/Task.antt =====
-- Include/task with a photo service that answers at the second call.
use hzrobot.Prelude.{
  ℕ, zero, suc, ◌+◌, ◌<◌, true, false, Option, some, none, [], ◌∷◌, ◌++◌, ◌≡◌, refl, arith, Bytes,
  codes,
}
use hzrobot.Task.{
  Reply, Attempt, call_failed, replied, Call, sent, failed, World, Round, Task, photo_task,
  photo_execute, photo_success, photo_faild, run_get, run_finish, continhue_success,
  continhue_faild, photo_loop, photo_attempt, continue_loop, continue_attempt, execute_after,
  task_poll,
}
use hzrobot.Task.Retry.{
  IsRetried, IsSuccess, retry_records, text_of, photo_execute_success, photo_execute_exhausted,
}
use hzrobot.Task.Poll.{task_poll_continue}
use hzrobot.Task.Host.{has_colon}

abbrev good : Reply
good = record { body = codes "ok"; tablenum = some 6; successnum = some 6 }

abbrev empty : Reply
empty = record { body = []; tablenum = none; successnum = none }

abbrev net : ℕ → Attempt
net zero = call_failed
net (suc zero) = replied good
net _ = replied empty

abbrev body : Bytes
body = codes "{}"

first_only : (j : ℕ) → j < 1 → IsRetried (net j)
first_only zero p = tt
first_only (suc j) p = absurd (omega arith)

photo_execute_success_example :
    photo_execute body net 3
    ≡ some (record {
      flag = true;
      calls = 1 + 1;
      log = retry_records body net 0 1 ++ (photo_success, text_of body (net 1)) ∷ [];
    })
photo_execute_success_example =
    photo_execute_success body net 3 1 (omega arith) first_only (6, refl, refl)

photo_execute_exhausted_example :
    photo_execute body net 1
    ≡ some (record { flag = false; calls = 1; log = retry_records body net 0 1 })
photo_execute_exhausted_example = photo_execute_exhausted body net 1 first_only

abbrev calls : ℕ → Call
calls zero = failed
calls _ = sent

abbrev world : World
world = record {
  photo_body = body;
  continue_body = body;
  cn_photo = 3;
  photo_net = net;
  continue_net = calls;
}

abbrev played : Round
played = record {
  photo_calls = 2;
  continue_calls = 2;
  log =
      (run_get, [])
      ∷ (photo_faild, body)
      ∷ (photo_success, codes "ok")
      ∷ (continhue_faild, body)
      ∷ (continhue_success, [])
      ∷ (run_finish, [])
      ∷ [];
}

task_poll-played : task_poll world (some photo_task) ≡ some played
unfolding task_poll photo_execute photo_loop photo_attempt execute_after continue_loop
    continue_attempt
task_poll-played = refl

task_poll_continue_example :
    (◌≡◌ {A = Option Task} (some photo_task) (some photo_task))
    × ((k : ℕ) × (k < world.cn_photo) × IsSuccess (world.photo_net k))
task_poll_continue_example =
    task_poll_continue world (some photo_task) played task_poll-played (omega arith)

no_colon_ip : has_colon (codes "10.0.0.1") ≡ false
unfolding has_colon
no_colon_ip = refl

no_colon_port : has_colon (codes "9989") ≡ false
unfolding has_colon
no_colon_port = refl
