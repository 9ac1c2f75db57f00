-- ===== src/Task.antt =====
-- The tasks of Include/task: `PhotoTask::execute`, `TaskBase::execute_after` and one round of
-- `TaskManger::taskPoll`. The log is the list of `recordlog` calls, and the network is a function
-- from the number of a call to what `sync_client::call` and the JSON of its reply give.
pub mod Retry
pub mod Poll
pub mod Host
pub mod Service
use hzrobot.Prelude.{
  ℕ, zero, suc, ◌+◌, Bool, true, false, Option, some, none, List, [], ◌∷◌, ◌++◌, ◌==◌,
  if◌then◌else◌, Bytes,
}

-- The actions of Include/common/action.hpp that the tasks log.
pub data Action : Type 0 where
  run_get run_finish photo_faild photo_success num_unsuccess : Action
  continhue_success continhue_faild : Action

-- `recordlog(action, remarks)`
abbrev pub Record : Type 0
Record = Action × Bytes

-- The reply of the photo service: its text, and the values of `atoi` (as 32-bit patterns) at the
-- two fields that the code reads. `none` is the null pointer of `find_kv_child`.
pub record Reply : Type 0 where
  pub body : Bytes
  pub tablenum : Option ℕ
  pub successnum : Option ℕ

pub data Attempt : Type 0 where
  call_failed call_threw : Attempt
  -- The client crashed, or did not come back.
  call_crashed : Attempt
  replied : Reply → Attempt

-- What one pass through the loop leaves in `finish`, and what it logs; `none` is a read through a
-- null pointer, or the crash of the client.
unfoldable pub photo_attempt : Bytes → Bool → Attempt → Option (Bool × Record)
photo_attempt config_body finish call_failed = some (finish, (photo_faild, config_body))
photo_attempt config_body finish call_threw = some (false, (photo_faild, config_body))
photo_attempt config_body finish call_crashed = none
photo_attempt config_body finish (replied r) = elim r.tablenum [
  | none ↦ none
  | some totalnum ↦ elim r.successnum [
    | none ↦ none
    | some successnum ↦ some (
        if successnum == totalnum
        then (true, (photo_success, r.body))
        else (finish, (num_unsuccess, r.body)))
  ]
]

-- What a retry loop has done so far: the flag that ends it, the number of its calls, its log.
pub record Loop : Type 0 where
  pub flag : Bool
  pub calls : ℕ
  pub log : List Record

-- `while (n_cur < cn_photo && !getisvaild())`, with `left` for `cn_photo - n_cur`.
unfoldable pub photo_loop : Bytes → (ℕ → Attempt) → ℕ → Loop → Option Loop
photo_loop config_body net zero s = some s
photo_loop config_body net (suc left) s = elim s.flag [
  | true ↦ some s
  | false ↦ elim (photo_attempt config_body s.flag (net s.calls)) [
    | none ↦ none
    | some (finish, entry) ↦
        photo_loop config_body net left
          (record { flag = finish; calls = s.calls + 1; log = s.log ++ entry ∷ [] })
  ]
]

-- `PhotoTask::execute` of a task whose `finish` is still false.
unfoldable pub photo_execute : Bytes → (ℕ → Attempt) → ℕ → Option Loop
photo_execute config_body net cn_photo =
    photo_loop config_body net cn_photo (record { flag = false; calls = 0; log = [] })

-- What `call` does for `execute_after`.
pub data Call : Type 0 where
  sent failed threw : Call

unfoldable pub continue_attempt : Bytes → Bool → Call → Bool × Record
continue_attempt config_body res_flag sent = (true, (continhue_success, []))
continue_attempt config_body res_flag failed = (res_flag, (continhue_faild, config_body))
continue_attempt config_body res_flag threw = (false, (photo_faild, config_body))

-- `while (n_cur < cn_photo && !res_flag)`
unfoldable pub continue_loop : Bytes → (ℕ → Call) → ℕ → Loop → Loop
continue_loop config_body net zero s = s
continue_loop config_body net (suc left) s = elim s.flag [
  | true ↦ s
  | false ↦
      let (res_flag, entry) = continue_attempt config_body s.flag (net s.calls) in
      continue_loop config_body net left
        (record { flag = res_flag; calls = s.calls + 1; log = s.log ++ entry ∷ [] })
]

-- `TaskBase::execute_after`: its return value, which is true in any case, and its loop.
unfoldable pub execute_after : Bytes → (ℕ → Call) → ℕ → Bool × Loop
execute_after config_body net cn_photo =
    (true, continue_loop config_body net cn_photo (record { flag = false; calls = 0; log = [] }))

pub data Task : Type 0 where
  base_task photo_task : Task

-- What a round works with: the bodies that the configuration gives, the limit and the network.
pub record World : Type 0 where
  pub photo_body : Bytes
  pub continue_body : Bytes
  pub cn_photo : ℕ
  pub photo_net : ℕ → Attempt
  pub continue_net : ℕ → Call

-- `execute`, by dynamic dispatch; `TaskBase::execute` does nothing.
unfoldable pub execute : World → Task → Option Loop
execute w base_task = some (record { flag = false; calls = 0; log = [] })
execute w photo_task = photo_execute w.photo_body w.photo_net w.cn_photo

-- What a round did: the calls of both loops, and all that it logged.
pub record Round : Type 0 where
  pub photo_calls : ℕ
  pub continue_calls : ℕ
  pub log : List Record

abbrev plain : Action → Record
plain a = (a, [])

-- `if (taskBase->getisvaild()) taskBase->execute_after();`
unfoldable pub finish_round : World → Loop → Round
finish_round w s = elim s.flag [
  | true ↦
      let (_, after) = execute_after w.continue_body w.continue_net w.cn_photo in
      record {
        photo_calls = s.calls;
        continue_calls = after.calls;
        log = plain run_get ∷ (s.log ++ (after.log ++ plain run_finish ∷ []));
      }
  | false ↦ record {
    photo_calls = s.calls;
    continue_calls = 0;
    log = plain run_get ∷ (s.log ++ plain run_finish ∷ []);
  }
]

-- One round of `taskPoll` on the pointer that `Get` stored; `none` is a null pointer.
unfoldable pub task_poll : World → Option Task → Option Round
unfolding finish_round execute
task_poll w none =
    some
      (record { photo_calls = 0; continue_calls = 0; log = plain run_get ∷ plain run_finish ∷ [] })
task_poll w (some task) = elim (execute w task) [ none ↦ none | some s ↦ some (finish_round w s) ]
