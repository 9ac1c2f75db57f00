-- ===== src/Tests/Net.antt =====
-- A connection that sends five bytes in two calls of `do_send`.
use hzrobot.Prelude.{ℕ, true, false, leb, some, List, [], ◌∷◌, ◌++◌, Bytes, codes, ◌≡◌, refl, arith}
use hzrobot.Net.{
  plain, e_connection, sends, modifies, Engine, Life, alive, and_then, Callbacks, do_monitor_events,
}
use hzrobot.Net.Send.{
  took, ewouldblock, eintr, breaks, do_send_loop, monitor_rest, call_send, after_loop, do_send,
  async_sendv,
}
use hzrobot.Net.Stream.{wire, IsQuiet}
use hzrobot.Net.Runs.{Runs, starts, appends, writes, Runs-stream, async_sendv-IsPolled}
use hzrobot.Net.Ends.{do_send-ends}

abbrev pub fresh : Engine
fresh = record {
  conn = record {
    class = plain;
    role = e_connection;
    socket_fd = some 7;
    monitor_events = record { pollin = true; pollout = false };
    bind_epoll = true;
    recv_size = 1024;
    send_buf = [];
    recv_timeout = 0;
    send_timeout = 0;
    recv_timeout_timer_id = 0;
    send_timeout_timer_id = 0;
  };
  timers = record { entries = []; last_id = 0 };
  effects = [];
}

-- A callback that takes at most `limit` bytes at a time.
abbrev pub callbacks : ℕ → Callbacks
callbacks limit = record {
  now = 10;
  recv_timeout_callback = 1;
  reconnect_callback = 2;
  recv_callback = λ piece e. (true, e);
  send_callback = λ n e. (leb n limit, e);
  close_callback = λ e. e;
}

abbrev blocks : List Bytes
blocks = codes "abc" ∷ codes "de" ∷ []

abbrev waiting : Engine
waiting = record {
  conn = record (fresh.conn) {
    monitor_events = record { pollin = true; pollout = true };
    send_buf = codes "cde";
  };
  timers = fresh.timers;
  effects = sends (codes "ab") ∷ modifies (some 7) (record { pollin = true; pollout = true }) ∷ [];
}

abbrev finished : Engine
finished = record {
  conn = fresh.conn;
  timers = fresh.timers;
  effects =
      waiting.effects
      ++ sends (codes "cde") ∷ modifies (some 7) (record { pollin = true; pollout = false }) ∷ [];
}

quiet : (limit : ℕ) → IsQuiet (callbacks limit)
quiet limit n e = (refl, refl)

first_part :
    async_sendv (callbacks 100) (took 2 ∷ ewouldblock ∷ []) blocks true fresh ≡ some (alive waiting)
unfolding async_sendv do_send do_send_loop after_loop call_send monitor_rest do_monitor_events
    and_then
first_part = refl

second_part : do_send (callbacks 100) (eintr ∷ took 3 ∷ []) waiting ≡ some (alive finished)
unfolding do_send do_send_loop after_loop call_send monitor_rest do_monitor_events and_then
second_part = refl

run : Runs (callbacks 100) fresh ([] ++ codes "abcde") finished
run =
    writes ([] ++ codes "abcde") waiting finished (eintr ∷ took 3 ∷ [])
      (appends [] fresh waiting (took 2 ∷ ewouldblock ∷ []) blocks true starts (omega arith, tt)
        first_part)
      (omega arith, tt) second_part

Runs-stream_example :
    wire finished.effects ++ finished.conn.send_buf
    ≡ (wire fresh.effects ++ fresh.conn.send_buf) ++ ([] ++ codes "abcde")
Runs-stream_example =
    Runs-stream (callbacks 100) fresh finished ([] ++ codes "abcde") (quiet 100) refl run

async_sendv-IsPolled_example : waiting.conn.monitor_events.pollout ≡ true
async_sendv-IsPolled_example =
    async_sendv-IsPolled (callbacks 100) (took 2 ∷ ewouldblock ∷ []) blocks fresh waiting
      (quiet 100) refl (omega arith, tt) first_part (omega arith)

do_send-ends_example :
    (life : Life) × do_send (callbacks 100) (took 1 ∷ took 1 ∷ took 1 ∷ []) waiting ≡ some life
do_send-ends_example =
    do_send-ends (callbacks 100) (took 1 ∷ took 1 ∷ took 1 ∷ []) waiting (omega arith)

loops :
    do_send_loop (took 3 ∷ []) waiting.conn.send_buf 0 []
    ≡ some (record { ending = breaks; total = 3; taken = codes "cde" })
unfolding do_send_loop
loops = refl
