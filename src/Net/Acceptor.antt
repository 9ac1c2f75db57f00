-- ===== src/Net/Acceptor.antt =====
-- `acceptor` of Include/net/epoll.hpp. What `socket::accept` and the calls that open the socket
-- return are parameters.
use hzrobot.Prelude.{
  ℕ, Bool, true, false, if◌then◌else◌, Option, some, none, List, [], ◌∷◌, ◌++◌, Bytes,
}
use hzrobot.Net.{
  Effect, shuts, Engine, Life, alive, deleted, undefined, Callbacks, do_monitor_events, close,
}
use hzrobot.Net.Address.{AddressInfo, parse_addr}

-- What a call of `accept` gives: a new socket, an error after which the loop ends, or another.
pub data Accepted : Type 0 where
  new_fd : ℕ → Accepted
  none_waits broken : Accepted

-- `socket::close`
abbrev pub shut : Option ℕ → List Effect
shut none = []
shut (some fd) = shuts fd ∷ []

module _ (callbacks : Callbacks) (accept_callback : Bool → Option ℕ → Engine → Bool × Engine) where
  -- The loop; the callback is given the new connection, here by its socket. `none` stands for more
  -- calls than the list has.
  unfoldable pub accept_loop : List Accepted → Engine → Option Life
  unfolding close
  accept_loop [] e = none
  accept_loop (new_fd fd ∷ results) e =
      let (goes_on, e') = accept_callback true (some fd) e in
      let more = accept_loop results e' in
      if goes_on then more else elim (close callbacks e') [
        | alive e1 ↦ accept_loop results e1
        | deleted e1 ↦ some (undefined e1)
        | undefined e1 ↦ some (undefined e1)
      ]
  accept_loop (none_waits ∷ results) e = some (alive e)
  accept_loop (broken ∷ results) e = some (close callbacks e)

  unfoldable pub on_accept : Bool → List Accepted → Engine → Option Life
  unfolding accept_loop close
  on_accept true results e = accept_loop results e
  on_accept false results e =
      let (goes_on, e') = accept_callback false none e in
      some (if goes_on then alive e' else close callbacks e')

-- What the system does with a socket that is to listen.
pub record Opening : Type 0 where
  pub created : Option ℕ
  pub bound : Bool
  pub listens : Bool

abbrev pub with_fd : Option ℕ → Engine → Engine
with_fd fd e = record e { conn = record (e.conn) { socket_fd = fd } }

unfoldable pub listen_socket : Opening → Option ℕ → Engine → Bool × Engine
unfolding do_monitor_events
listen_socket opening none e = (false, with_fd none e)
listen_socket opening (some fd) e =
    let opened = with_fd (some fd) e in
    if opening.bound
    then (if opening.listens
        then (true, do_monitor_events (record { pollin = true; pollout = false }) opened)
        else (false, opened))
    else (false, opened)

-- With what is left in `_local_addr`.
unfoldable pub async_listen_accept :
    (Bytes → ℕ) → Opening → Bytes → AddressInfo → Engine → Bool × AddressInfo × Engine
unfolding parse_addr listen_socket
async_listen_accept atoi opening addr local_addr e =
    let (parsed, info) = parse_addr atoi addr local_addr in
    let shut_engine : Engine = record e { effects = e.effects ++ shut e.conn.socket_fd } in
    let (listens, e') = listen_socket opening opening.created shut_engine in
    if parsed then (listens, info, e') else (false, info, e)
