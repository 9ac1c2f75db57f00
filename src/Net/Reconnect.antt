-- ===== src/Net/Reconnect.antt =====
-- The registration of a connector's new socket with epoll after a close.
use hzrobot.Prelude.{
  ℕ, ◌<◌, Bool, true, false, ltb, some, none, List, [], ◌∷◌, ◌++◌, Bytes, length, ◌≡◌, refl, ◌∙◌,
  ap, subst, sym, inl, inr, Bool-cases, arith,
}
use hzrobot.Net.{
  connector, Connection, Poll, Effect, adds, modifies, Engine, alive, and_then, Callbacks,
  do_monitor_events, is_connection, close_socket, set_reconnect, connection_close, close_as, close,
}
use hzrobot.Net.Send.{
  Sent, breaks, do_send_loop, monitor_rest, flush, log_sends, call_send, after_loop, do_send,
}
use hzrobot.Net.Connector.{
  System, e_inprocess, reset_connector, after_connect, connect_socket, async_connect,
}

abbrev pub pollout_only : Poll
pollout_only = record { pollin = false; pollout = true }

-- What is asked last.
abbrev pub EndsWith : Effect → List Effect → Type 0
EndsWith effect effects = (before : List Effect) × effects ≡ before ++ effect ∷ []

-- A connection in process, with the socket.
abbrev pub Connects : System → ℕ → Type 0
Connects sys fd = sys.created ≡ some fd × sys.bound ≡ true × sys.connected ≡ e_inprocess

-- A connector with a socket, in what a close keeps.
abbrev pub Closed : Connection → Connection → Type 0
Closed c c' =
    c'.socket_fd ≡ none
    × c'.bind_epoll ≡ false
    × c'.send_buf ≡ c.send_buf
    × c'.monitor_events ≡ c.monitor_events

module _ (callbacks : Callbacks) where
  -- The close callback does not change the object.
  abbrev pub KeepsConn : Type 0
  KeepsConn = (e : Engine) → (callbacks.close_callback e).conn ≡ e.conn

  close_socket-Closed :
      (e : Engine) (c : Connection) (fd : ℕ)
      → e.conn ≡ c
      → c.socket_fd ≡ some fd
      → Closed c (close_socket callbacks e.conn.socket_fd e).conn
  unfolding close_socket
  close_socket-Closed e c fd same open_fd =
      let here : e.conn.socket_fd ≡ some fd = ap (λ (x : Connection). x.socket_fd) same ∙ open_fd in
      rw here (
        refl,
        refl,
        ap (λ (x : Connection). x.send_buf) same,
        ap (λ (x : Connection). x.monitor_events) same,
      )

  connection_close-Closed :
      (e : Engine) (fd : ℕ)
      → KeepsConn
      → e.conn.socket_fd ≡ some fd
      → Closed e.conn (connection_close callbacks e).conn
  unfolding connection_close
  connection_close-Closed e fd keeps open_fd = elim (Bool-cases (is_connection e.conn.role)) [
    | inl q ↦ rw q (close_socket-Closed (callbacks.close_callback e) e.conn fd (keeps e) open_fd)
    | inr q ↦ rw q (close_socket-Closed e e.conn fd refl open_fd)
  ]

  reconnects :
      (delay : ℕ) (c : Connection) (e : Engine)
      → Closed c e.conn
      → (e' : Engine) × alive
            (elim e.conn.socket_fd [ none ↦ set_reconnect callbacks delay e | some _ ↦ e ])
          ≡ alive e'
        × Closed c e'.conn
  unfolding set_reconnect
  reconnects delay c e closed = rw (closed.0) (_, refl, closed)

  close-Closed :
      (e : Engine) (fd delay : ℕ)
      → KeepsConn
      → e.conn.class ≡ connector true delay
      → e.conn.socket_fd ≡ some fd
      → (e' : Engine) × close callbacks e ≡ alive e' × Closed e.conn e'.conn
  unfolding close close_as
  close-Closed e fd delay keeps class open_fd =
      subst (λ k. (e' : Engine) × close_as callbacks k e ≡ alive e' × Closed e.conn e'.conn)
        (sym class)
        (reconnects delay e.conn (connection_close callbacks e)
          (connection_close-Closed e fd keeps open_fd))

  module _ (connect_callback : Bool → Engine → Engine) where
    async_connect-bound :
        (sys : System) (new : ℕ) (e : Engine)
        → Connects sys new
        → e.conn.bind_epoll ≡ true
        → EndsWith
            (modifies (some new) pollout_only)
            (async_connect connect_callback sys e).1.effects
    unfolding async_connect connect_socket after_connect do_monitor_events reset_connector
    async_connect-bound sys new e (created, bound, connected) bind =
        rw created (rw bound (rw connected (rw bind (_, refl))))

    async_connect-unbound :
        (sys : System) (new : ℕ) (e : Engine)
        → Connects sys new
        → e.conn.bind_epoll ≡ false
        → EndsWith (adds (some new) pollout_only) (async_connect connect_callback sys e).1.effects
    unfolding async_connect connect_socket after_connect do_monitor_events reset_connector
    async_connect-unbound sys new e (created, bound, connected) bind =
        rw created (rw bound (rw connected (rw bind (_, refl))))

    -- A connector that reconnects is alive after `close`, where it had a socket and the close
    -- callback does not change it; when it then connects and the connection is in process, its new
    -- socket is added to epoll.
    pub close-adds :
        (e : Engine) (fd delay new : ℕ) (sys : System)
        → KeepsConn
        → e.conn.class ≡ connector true delay
        → e.conn.socket_fd ≡ some fd
        → Connects sys new
        → (e' : Engine) × close callbacks e ≡ alive e'
          × EndsWith
              (adds (some new) pollout_only)
              (async_connect connect_callback sys e').1.effects
    close-adds e fd delay new sys keeps class open_fd connects =
        let (e', closes_to, closed) = close-Closed e fd delay keeps class open_fd in
        (e', closes_to, async_connect-unbound sys new e' connects closed.1)

    monitor_rest-bound :
        (e : Engine)
        → 0 < length e.conn.send_buf
        → e.conn.monitor_events.pollout ≡ false
        → (monitor_rest e).conn.bind_epoll ≡ true
    unfolding monitor_rest do_monitor_events
    monitor_rest-bound e some_bytes unpolled =
        let p : ltb 0 (length e.conn.send_buf) ≡ true = ground arith in rw p (rw unpolled refl)

    -- Where the loop of `do_send` took bytes and the send callback then refuses, while bytes are left
    -- and EPOLLOUT is not monitored, a connector that reconnects stays alive, where it has a socket
    -- after the refusal and the close callback does not change it; when it then connects and the
    -- connection is in process, its new socket is not added to epoll but modified there.
    pub do_send-modifies :
        (results : List Sent) (e e1 : Engine) (total : ℕ) (taken : Bytes) (fd delay new : ℕ)
        (sys : System)
        → KeepsConn
        → 0 < length e.conn.send_buf
        → 0 < total
        → do_send_loop results e.conn.send_buf 0 []
          ≡ some (record { ending = breaks; total = total; taken = taken })
        → callbacks.send_callback total (flush total (log_sends taken e)) ≡ (false, e1)
        → e1.conn.class ≡ connector true delay
        → e1.conn.socket_fd ≡ some fd
        → 0 < length e1.conn.send_buf
        → e1.conn.monitor_events.pollout ≡ false
        → Connects sys new
        → (e' : Engine) × do_send callbacks results e ≡ some (alive e')
          × EndsWith
              (modifies (some new) pollout_only)
              (async_connect connect_callback sys e').1.effects
    unfolding do_send after_loop call_send and_then
    do_send-modifies results e e1 total taken fd delay new sys keeps some_bytes positive loops
          refuses class open_fd rest unpolled connects =
        let (e2, closes_to, closed) = close-Closed e1 fd delay keeps class open_fd in
        let p : ltb 0 (length e.conn.send_buf) ≡ true = ground arith in
        let q : ltb 0 total ≡ true = ground arith in
        let bound =
          monitor_rest-bound e2 (subst (λ b. 0 < length b) (sym (closed.2)) rest)
            (ap (λ (events : Poll). events.pollout) (closed.3) ∙ unpolled) in
        (
          monitor_rest e2,
          rw (p, loops) (rw (q, refuses) (rw closes_to refl)),
          async_connect-bound sys new (monitor_rest e2) connects bound,
        )
