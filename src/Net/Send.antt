-- ===== src/Net/Send.antt =====
-- `do_send` and `async_sendv` of Include/net/epoll.hpp.
use hzrobot.Prelude.{
  ℕ, zero, suc, ◌+◌, Bool, true, false, not, ◌||◌, ltb, if◌then◌else◌, Option, some, none, List, [],
  ◌∷◌, ◌++◌, Bytes, length, take, drop,
}
use mathlib.Core.Option
use hzrobot.Net.{sends, Engine, Life, alive, and_then, Callbacks, do_monitor_events, close}

-- What a call of `send` returns, or the error that it leaves.
pub data Sent : Type 0 where
  took : ℕ → Sent
  ewouldblock econnreset eintr eother : Sent

-- How the loop of `do_send` is left: at its end or by `break`, by closing, or by `return`.
pub data Ending : Type 0 where
  breaks closes gives_up : Ending

-- With `send_len_total` and the bytes that were taken.
pub record Looped : Type 0 where
  pub ending : Ending
  pub total : ℕ
  pub taken : Bytes

-- The loop on what the calls return and the data that is left; `none` stands for more calls than
-- the list has.
unfoldable pub do_send_loop : List Sent → Bytes → ℕ → Bytes → Option Looped
do_send_loop results [] total taken =
    some (record { ending = breaks; total = total; taken = taken })
do_send_loop [] (c ∷ cs) total taken = none
do_send_loop (took zero ∷ results) (c ∷ cs) total taken =
    some (record { ending = closes; total = total; taken = taken })
do_send_loop (took (suc n) ∷ results) (c ∷ cs) total taken =
    do_send_loop results (drop n cs) (total + suc n) (taken ++ take (suc n) (c ∷ cs))
do_send_loop (ewouldblock ∷ results) (c ∷ cs) total taken =
    some (record { ending = breaks; total = total; taken = taken })
do_send_loop (econnreset ∷ results) (c ∷ cs) total taken =
    some (record { ending = closes; total = total; taken = taken })
do_send_loop (eintr ∷ results) (c ∷ cs) total taken = do_send_loop results (c ∷ cs) total taken
do_send_loop (eother ∷ results) (c ∷ cs) total taken =
    some (record { ending = gives_up; total = total; taken = taken })

-- The end of `do_send`: EPOLLOUT is monitored while bytes are left.
unfoldable pub monitor_rest : Engine → Engine
unfolding do_monitor_events
monitor_rest e =
    let events = e.conn.monitor_events in
    if ltb 0 (length e.conn.send_buf)
    then (if events.pollout then e else do_monitor_events (record events { pollout = true }) e)
    else (if events.pollout then do_monitor_events (record events { pollout = false }) e else e)

abbrev pub flush : ℕ → Engine → Engine
flush total e = record e { conn = record (e.conn) { send_buf = drop total e.conn.send_buf } }

abbrev pub log_sends : Bytes → Engine → Engine
log_sends taken e = record e { effects = e.effects ++ sends taken ∷ [] }

-- The loop of `async_sendv`.
abbrev pub append_all : Bytes → List Bytes → Bytes
append_all buf [] = buf
append_all buf (block ∷ blocks) = append_all (buf ++ block) blocks

module _ (callbacks : Callbacks) where
  unfoldable pub call_send : ℕ → Engine → Life
  unfolding close
  call_send total e =
      let (goes_on, e') = callbacks.send_callback total e in
      if ltb 0 total then (if goes_on then alive e' else close callbacks e') else alive e

  unfoldable pub after_loop : Looped → Engine → Life
  unfolding call_send monitor_rest and_then close
  after_loop looped e =
      let e' = log_sends looped.taken e in
      elim looped.ending [
        | breaks ↦
            and_then (call_send looped.total (flush looped.total e'))
              (λ e1. alive (monitor_rest e1))
        | closes ↦ close callbacks e'
        | gives_up ↦ alive e'
      ]

  -- An empty buffer ends it at once.
  unfoldable pub do_send : List Sent → Engine → Option Life
  unfolding after_loop do_send_loop
  do_send results e =
      let data_ = e.conn.send_buf in
      let done =
        Option.map (λ (looped : Looped). after_loop looped e) (do_send_loop results data_ 0 []) in
      if ltb 0 (length data_) then done else some (alive e)

  unfoldable pub async_sendv : List Sent → List Bytes → Bool → Engine → Option Life
  unfolding do_send
  async_sendv results iov flushes e =
      let e' = record e { conn = record (e.conn) { send_buf = append_all e.conn.send_buf iov } } in
      let sent = do_send results e' in
      if not flushes || e'.conn.monitor_events.pollout then some (alive e') else sent
