-- ===== src/Net/Recv.antt =====
-- `do_recv` of Include/net/epoll.hpp.
use hzrobot.Prelude.{◌==◌, if◌then◌else◌, Option, some, none, List, [], ◌∷◌, Bytes, length}
use hzrobot.Net.{Engine, Life, alive, and_then, Callbacks, start_recv_timeout_timer, close}

-- What a call of `recv` delivers, nothing at the end of the stream, or the error that it leaves.
pub data Got : Type 0 where
  got : Bytes → Got
  waits : Got
  broken : Got

module _ (callbacks : Callbacks) where
  -- What follows the loop, after the call of `recv` that ended it.
  unfoldable pub after_received : Got → Engine → Life
  unfolding close start_recv_timeout_timer and_then
  after_received (got []) e = close callbacks e
  after_received (got (c ∷ cs)) e =
      let (goes_on, e') = callbacks.recv_callback (c ∷ cs) e in
      if goes_on then alive (start_recv_timeout_timer callbacks e') else close callbacks e'
  after_received waits e = alive (start_recv_timeout_timer callbacks e)
  after_received broken e =
      and_then (close callbacks e) (λ e'. alive (start_recv_timeout_timer callbacks e'))

  -- The loop: pieces that fill the buffer. `none` stands for more calls than the list has.
  unfoldable pub do_recv : List Got → Engine → Option Life
  unfolding after_received close
  do_recv [] e = none
  do_recv (got piece ∷ results) e =
      let (goes_on, e') = callbacks.recv_callback piece e in
      let more = do_recv results e' in
      if length piece == e.conn.recv_size
      then (if goes_on then more else some (close callbacks e'))
      else some (after_received (got piece) e)
  do_recv (waits ∷ results) e = some (after_received waits e)
  do_recv (broken ∷ results) e = some (after_received broken e)
