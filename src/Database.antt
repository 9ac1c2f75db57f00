-- ===== src/Database.antt =====
-- `mysql` of Include/mysql/mysql.hpp: a connection to the database server that opens itself again
-- when the server is lost. The MySQL client library is a parameter.
pub mod Handles
pub mod Result
pub mod Pool
use hzrobot.Prelude.{
  ℕ, zero, suc, ◌+◌, Bool, true, false, not, ◌||◌, ◌==◌, if◌then◌else◌, Option, some, none, List,
  [], ◌∷◌, ◌++◌, Bytes, codes, c_str,
}
use hzrobot.Net.Address.{AddressInfo, parse_addr}

pub record ConnectInfo : Type 0 where
  pub addr : Bytes
  pub database : Bytes
  pub user : Bytes
  pub password : Bytes
  pub charset : Bytes
  pub flags : ℕ
  pub conn_timeout : ℕ
  pub rw_timeout : ℕ
  pub auto_commit : Bool

-- Where `mysql_real_connect` connects to.
pub data Endpoint : Type 0 where
  unix_socket : Bytes → Endpoint
  at_addr : Bytes → ℕ → Endpoint

-- The library's functions, on handles. `connects` is `mysql_real_connect` after the options that
-- the connection's information gives; `store_result` has the number of rows, `affected_rows`
-- is `none` for -1, and `hang_up` is `mysql_close`.
pub record Library (World : Type 0) : Type 0 where
  pub init : World → Option ℕ × World
  pub connects : ℕ → ConnectInfo → Endpoint → World → Bool × World
  pub set_character_set : ℕ → Bytes → World → World
  pub hang_up : ℕ → World → World
  pub autocommit : ℕ → Bool → World → Bool × World
  pub query : ℕ → Bytes → World → Bool × World
  pub errno : ℕ → World → ℕ
  pub store_result : ℕ → World → Option ℕ × World
  pub affected_rows : ℕ → World → Option ℕ

-- What is asked of the library, as far as handles and statements go.
pub data Call : Type 0 where
  inits closes : ℕ → Call
  queries : ℕ → Bytes → Call

-- The object, the calls that were made, and the world.
pub record Mysql (World : Type 0) : Type 0 where
  pub conn : Option ℕ
  pub calls : List Call
  pub world : World

abbrev pub cr_server_gone_error : ℕ
cr_server_gone_error = 2006

abbrev pub cr_server_lost : ℕ
cr_server_lost = 2013

module _ {World : Type 0} (lib : Library World) where
  unfoldable pub close_conn : Mysql World → Mysql World
  close_conn m = elim m.conn [
    | none ↦ m
    | some h ↦ record m {
      conn = none;
      calls = m.calls ++ closes h ∷ [];
      world = lib.hang_up h m.world;
    }
  ]

  module _ (atoi : Bytes → ℕ) (info : ConnectInfo) where
    unfoldable pub endpoint : Endpoint
    unfolding parse_addr
    endpoint =
        let (parsed, addr) = parse_addr atoi info.addr (record { ip = []; port = 0; v6 = false }) in
        if parsed then at_addr addr.ip addr.port else unix_socket info.addr

    -- The handle is given up again.
    abbrev pub gives_up : ℕ → List Call → World → Bool × Mysql World
    gives_up h calls w =
        (false, record { conn = none; calls = calls ++ closes h ∷ []; world = lib.hang_up h w })

    abbrev pub with_charset : ℕ → Bytes → World → World
    with_charset h [] w = w
    with_charset h (c ∷ cs) w = lib.set_character_set h (c ∷ cs) w

    -- The rest of `open` for a handle that `mysql_init` gave.
    unfoldable pub connect_handle : ℕ → List Call → World → Bool × Mysql World
    unfolding endpoint
    connect_handle h calls w =
        let (connected, w1) = lib.connects h info endpoint w in
        let (committing, w2) = lib.autocommit h info.auto_commit (with_charset h info.charset w1) in
        if not connected
        then gives_up h calls w1
        else if not committing
        then gives_up h calls w2
        else (true, record { conn = some h; calls = calls; world = w2 })

    unfoldable pub open_from : Option ℕ → List Call → World → Bool × Mysql World
    unfolding connect_handle
    open_from none calls w = (false, record { conn = none; calls = calls; world = w })
    open_from (some h) calls w = connect_handle h (calls ++ inits h ∷ []) w

    unfoldable pub open_conn : Mysql World → Bool × Mysql World
    unfolding open_from
    open_conn m = elim m.conn [
      | some h ↦ (true, m)
      | none ↦ let (handle, w) = lib.init m.world in open_from handle m.calls w
    ]

    abbrev pub ask : ℕ → Bytes → Mysql World → Bool × Mysql World
    ask h sql m =
        let (ok, w) = lib.query h (c_str sql) m.world in
        (ok, record m { calls = m.calls ++ queries h (c_str sql) ∷ []; world = w })

    -- The statement for an object that was opened again.
    unfoldable pub ask_again : Bytes → Bool × Mysql World → Bool × Mysql World
    ask_again sql (false, m) = (false, m)
    ask_again sql (true, m) = elim m.conn [ none ↦ (false, m) | some h ↦ ask h sql m ]

    abbrev pub is_lost : ℕ → Bool
    is_lost errnum = errnum == cr_server_lost || errnum == cr_server_gone_error

    unfoldable pub request_on : ℕ → Bytes → Mysql World → Bool × Mysql World
    unfolding ask_again open_conn close_conn
    request_on h sql m =
        let (ok, m1) = ask h sql m in
        if ok
        then (true, m1)
        else if is_lost (lib.errno h m1.world)
        then ask_again sql (open_conn (close_conn m1))
        else (false, m1)

    unfoldable pub request : Bytes → Mysql World → Bool × Mysql World
    unfolding request_on
    request sql m = elim m.conn [ none ↦ (false, m) | some h ↦ request_on h sql m ]

    -- `mysql_store_result`, after which a failure closes: the number of rows.
    unfoldable pub store : Mysql World → Option ℕ × Mysql World
    unfolding close_conn
    store m = elim m.conn [
      | none ↦ (none, m)
      | some h ↦
          let (rows, w) = lib.store_result h m.world in
          let m' : Mysql World = record m { world = w } in
          elim rows [
            | some n ↦ (some n, m')
            | none ↦ (none, if lib.errno h w == 0 then m' else close_conn m')
          ]
    ]

    abbrev pub is_some : Option ℕ → Bool
    is_some none = false
    is_some (some n) = true

    unfoldable pub select : Bytes → Mysql World → Bool × Mysql World
    unfolding request store
    select sql m =
        let (ok, m1) = request sql m in
        let (rows, m2) = store m1 in if ok then (is_some rows, m2) else (false, m1)

    abbrev pub has_rows : Option ℕ → Bool
    has_rows none = false
    has_rows (some n) = not (n == 0)

    unfoldable pub exists : Bytes → Mysql World → Bool × Mysql World
    unfolding request store
    exists table m =
        let (ok, m1) = request (codes "show tables like '" ++ (c_str table ++ codes "'")) m in
        let (rows, m2) = store m1 in if ok then (has_rows rows, m2) else (false, m1)

    abbrev pub affected : Option ℕ → Mysql World → Option ℕ
    affected none m = none
    affected (some h) m = lib.affected_rows h m.world

    unfoldable pub execute : Bytes → Mysql World → Bool × Mysql World
    unfolding request
    execute sql m =
        let (ok, m1) = request sql m in (if ok then is_some (affected m1.conn m1) else false, m1)

    -- `none` is -1.
    unfoldable pub affect_count : Mysql World → Option ℕ
    affect_count m = affected m.conn m

    unfoldable pub begin_transaction : Mysql World → Bool × Mysql World
    unfolding execute
    begin_transaction m = execute (codes "start transaction") m

    unfoldable pub commit : Mysql World → Bool × Mysql World
    unfolding execute
    commit m = execute (codes "commit") m
