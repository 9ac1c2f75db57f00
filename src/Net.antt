-- ===== src/Net.antt =====
-- `connection`, `connector` and `acceptor` of Include/net/epoll.hpp, for Linux: one object, the
-- timers of its engine and what it asks of the system. The flags EPOLLET and EPOLLHUP, which every call of
-- `do_monitor_events` adds, are not kept. A buffer has less than 2 ^ 31 bytes.
pub mod Address
pub mod Acceptor
pub mod Send
pub mod Recv
pub mod Stream
pub mod Runs
pub mod Ends
pub mod Connector
pub mod Reconnect
use hzrobot.Prelude.{
  ℕ, zero, suc, ◌+◌, ◌<◌, Bool, true, false, not, ◌||◌, ◌==◌, ltb, leb, if◌then◌else◌, Option, some,
  none, List, [], ◌∷◌, ◌++◌, Bytes, length, take, drop,
}
use hzrobot.Timer.{Manager, invalid_timer_id, set_timer, cancel_timer}

pub data Role : Type 0 where
  e_acceptor e_connector e_connection : Role

-- The class of the object; a connector has its `reconnect` and its `reconnect_delay`.
pub data Class : Type 0 where
  plain : Class
  connector : Bool → ℕ → Class

-- The flags EPOLLIN and EPOLLOUT.
pub record Poll : Type 0 where
  pub pollin : Bool
  pub pollout : Bool

-- `invalid_socket` is `none`; the content of the buffer to receive into is what `recv` wrote last.
pub record Connection : Type 0 where
  pub class : Class
  pub role : Role
  pub socket_fd : Option ℕ
  pub monitor_events : Poll
  pub bind_epoll : Bool
  pub recv_size : ℕ
  pub send_buf : Bytes
  pub recv_timeout : ℕ
  pub send_timeout : ℕ
  pub recv_timeout_timer_id : ℕ
  pub send_timeout_timer_id : ℕ

-- The bytes that `send` took, the calls of `epoll_ctl` and `close`. Where an object is added, its
-- socket is set not to block before.
pub data Effect : Type 0 where
  sends : Bytes → Effect
  adds modifies : Option ℕ → Poll → Effect
  deletes shuts : ℕ → Effect

pub record Engine : Type 0 where
  pub conn : Connection
  pub timers : Manager
  pub effects : List Effect

-- After `close` the object may be deleted; a program that uses it then has no defined behaviour.
pub data Life : Type 0 where
  alive deleted undefined : Engine → Life

-- What the clock shows, the numbers of the callbacks that timers get, and the callbacks, which may
-- change the object, its timers and what was asked of the system.
pub record Callbacks : Type 0 where
  pub now : ℕ
  pub recv_timeout_callback : ℕ
  pub reconnect_callback : ℕ
  pub recv_callback : Bytes → Engine → Bool × Engine
  pub send_callback : ℕ → Engine → Bool × Engine
  pub close_callback : Engine → Engine

-- A use of the object, which needs that it was not deleted.
unfoldable pub and_then : Life → (Engine → Life) → Life
and_then (alive e) next = next e
and_then (deleted e) next = undefined e
and_then (undefined e) next = undefined e

unfoldable pub do_monitor_events : Poll → Engine → Engine
do_monitor_events events e =
    let fd = e.conn.socket_fd in
    let asked = if e.conn.bind_epoll then modifies fd events else adds fd events in
    record e {
      conn = record (e.conn) { bind_epoll = true; monitor_events = events };
      effects = e.effects ++ asked ∷ [];
    }

unfoldable pub stop_recv_timeout_timer : Engine → Engine
stop_recv_timeout_timer e = record e {
  conn = record (e.conn) { recv_timeout_timer_id = invalid_timer_id };
  timers = (cancel_timer e.conn.recv_timeout_timer_id e.timers).1;
}

unfoldable pub stop_send_timeout_timer : Engine → Engine
stop_send_timeout_timer e = record e {
  conn = record (e.conn) { send_timeout_timer_id = invalid_timer_id };
  timers = (cancel_timer e.conn.send_timeout_timer_id e.timers).1;
}

abbrev pub is_connection : Role → Bool
is_connection e_connection = true
is_connection _ = false

module _ (callbacks : Callbacks) where
  -- `start_timer` for the time to receive.
  unfoldable pub start_recv_timeout_timer : Engine → Engine
  unfolding stop_recv_timeout_timer
  start_recv_timeout_timer e =
      let stopped = stop_recv_timeout_timer e in
      let (id, timers) =
        set_timer callbacks.now e.conn.recv_timeout callbacks.recv_timeout_callback false
          stopped.timers in
      if e.conn.recv_timeout == 0
      then stopped
      else record e { conn = record (e.conn) { recv_timeout_timer_id = id }; timers = timers }

  -- The part of `connection::close` for an object with a socket.
  unfoldable pub close_socket : Option ℕ → Engine → Engine
  unfolding stop_recv_timeout_timer stop_send_timeout_timer
  close_socket none e = e
  close_socket (some fd) e =
      let stopped = stop_send_timeout_timer (stop_recv_timeout_timer e) in
      record stopped {
        conn = record (stopped.conn) { socket_fd = none; bind_epoll = false };
        effects = stopped.effects ++ deletes fd ∷ shuts fd ∷ [];
      }

  -- `connection::close` before the object is deleted.
  unfoldable pub connection_close : Engine → Engine
  unfolding close_socket
  connection_close e =
      let e' = if is_connection e.conn.role then callbacks.close_callback e else e in
      close_socket e'.conn.socket_fd e'

  unfoldable pub set_reconnect : ℕ → Engine → Engine
  set_reconnect delay e = record e {
    timers = (set_timer callbacks.now delay callbacks.reconnect_callback false e.timers).1;
  }

  -- The virtual `close()`; a connector looks at its `reconnect` after it was deleted.
  unfoldable pub close_as : Class → Engine → Life
  unfolding connection_close set_reconnect
  close_as plain e = deleted (connection_close e)
  close_as (connector false delay) e = undefined (connection_close e)
  close_as (connector true delay) e =
      let e' = connection_close e in
      alive (elim e'.conn.socket_fd [ none ↦ set_reconnect delay e' | some _ ↦ e' ])

  unfoldable pub close : Engine → Life
  unfolding close_as
  close e = close_as e.conn.class e

  -- `async_recv`
  unfoldable pub async_recv : Engine → Engine
  unfolding do_monitor_events start_recv_timeout_timer
  async_recv e =
      let sized = record e { conn = record (e.conn) { recv_size = 1024 } } in
      let monitored = do_monitor_events (record (e.conn.monitor_events) { pollin = true }) sized in
      start_recv_timeout_timer (if e.conn.monitor_events.pollin then e else monitored)

  -- The callback of the timer that `start_timer` sets, on what the timeout callback says: whether
  -- the timer is to be called again, and the object, whose field is written after the close.
  unfoldable pub recv_timeout_fires : Bool → Engine → Bool × Life
  unfolding close and_then
  recv_timeout_fires true e = (true, alive e)
  recv_timeout_fires false e = (
    false,
    and_then (close e) (λ e'.
        alive (record e' { conn = record (e'.conn) { recv_timeout_timer_id = invalid_timer_id } })),
  )
