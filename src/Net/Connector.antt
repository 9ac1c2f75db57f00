-- ===== src/Net/Connector.antt =====
-- `connector::async_connect`, and what `proactor_engine::run` of Include/net/epoll.hpp does with an
-- event of a connector or a connection. What `socket::create`, `bind` and `connect` return are
-- parameters.
use hzrobot.Prelude.{ℕ, Bool, true, false, not, if◌then◌else◌, Option, some, none, List, [], ◌++◌}
use mathlib.Core.Option
use hzrobot.Net.{
  Role, e_acceptor, e_connector, e_connection, Engine, Life, alive, deleted, undefined, and_then,
  Callbacks, do_monitor_events, close,
}
use hzrobot.Net.Acceptor.{Accepted, shut, on_accept}
use hzrobot.Net.Send.{Sent, do_send, async_sendv}
use hzrobot.Net.Recv.{Got, do_recv}

-- `connect_error_t`, whose errors are one.
pub data Connected : Type 0 where
  e_success e_inprocess e_error : Connected

pub record System : Type 0 where
  pub created : Option ℕ
  pub bound : Bool
  pub connected : Connected

-- The object before `socket::create`.
unfoldable pub reset_connector : Engine → Engine
reset_connector e = record e {
  conn = record (e.conn) {
    socket_fd = none;
    role = e_connector;
    monitor_events = record { pollin = false; pollout = false };
  };
  effects = e.effects ++ shut e.conn.socket_fd;
}

abbrev pub with_role : Role → Engine → Engine
with_role role e = record e { conn = record (e.conn) { role = role } }

module _ (connect_callback : Bool → Engine → Engine) where
  unfoldable pub after_connect : Connected → Engine → Bool × Engine
  unfolding do_monitor_events
  after_connect e_success e = (true, connect_callback true (with_role e_connection e))
  after_connect e_inprocess e =
      (true, do_monitor_events (record { pollin = false; pollout = true }) e)
  after_connect e_error e = (false, e)

  unfoldable pub connect_socket : Option ℕ → System → Engine → Bool × Engine
  unfolding after_connect
  connect_socket none sys e = (false, e)
  connect_socket (some fd) sys e =
      let e' = record e { conn = record (e.conn) { socket_fd = some fd } } in
      if sys.bound then after_connect sys.connected e' else (false, e')

  unfoldable pub async_connect : System → Engine → Bool × Engine
  unfolding connect_socket reset_connector
  async_connect sys e = connect_socket sys.created sys (reset_connector e)

  -- The timer of a connector that reconnects: whether it is to be called again, and the object.
  unfoldable pub reconnect_timer : System → Engine → Bool × Engine
  unfolding async_connect
  reconnect_timer sys e = let (done, e') = async_connect sys e in (not done, e')

  -- The flags of an event: EPOLLERR or EPOLLHUP, EPOLLIN, EPOLLOUT.
  pub record Event : Type 0 where
    pub fails : Bool
    pub reads : Bool
    pub writes : Bool

  module _ (callbacks : Callbacks) where
    unfoldable pub connected_now : List Sent → Engine → Option Life
    unfolding async_sendv and_then
    connected_now results e =
        let e' = record e {
          conn = record (e.conn) {
            role = e_connection;
            monitor_events = record { pollin = false; pollout = false };
          };
        } in
        Option.map (λ (life : Life). and_then life (λ e1. alive (connect_callback true e1)))
          (async_sendv callbacks results [] true e')

    unfoldable pub then_send : Bool → List Sent → Life → Option Life
    unfolding do_send
    then_send false results life = some life
    then_send true results (alive e) = do_send callbacks results e
    then_send true results (deleted e) = some (undefined e)
    then_send true results (undefined e) = some (undefined e)

    unfoldable pub on_connection : Event → List Got → List Sent → Engine → Option Life
    unfolding close do_recv then_send
    on_connection event gots results e =
        let received = if event.reads then do_recv callbacks gots e else some (alive e) in
        if event.fails
        then some (close callbacks e)
        else Option.bind received (λ (life : Life). then_send event.writes results life)

    unfoldable pub on_connector : Event → List Sent → Engine → Option Life
    unfolding close connected_now
    on_connector event results e =
        let written = if event.writes then connected_now results e else some (alive e) in
        if event.fails then some (close callbacks (connect_callback false e)) else written

    unfoldable pub on_event :
        (Bool → Option ℕ → Engine → Bool × Engine)
        → Event
        → List Accepted
        → List Got
        → List Sent
        → Engine
        → Option Life
    unfolding on_connection on_connector on_accept
    on_event accept_callback event accepted gots results e = elim e.conn.role [
      | e_acceptor ↦ on_accept callbacks accept_callback event.reads accepted e
      | e_connector ↦ on_connector event results e
      | e_connection ↦ on_connection event gots results e
    ]
