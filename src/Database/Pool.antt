-- ===== src/Database/Pool.antt =====
-- `mysql_pool` of Include/mysql/mysql.hpp: a connection to the database for each thread. A call of
-- `get` holds the lock, so that calls come one after another. The objects of `mysql` are numbered
-- in the order in which they were made.
pub mod Threads
use hzrobot.Prelude.{
  ℕ, Bool, true, false, ◌==◌, if◌then◌else◌, Option, some, none, List, [], ◌∷◌, ◌++◌, Bytes, length,
}
use hzrobot.Database.{ConnectInfo, Library, Call, Mysql, open_conn}

-- `_pool`, with the number of each thread's object; the objects' connections; the library.
pub record Pool (World : Type 0) : Type 0 where
  pub entries : List (ℕ × ℕ)
  pub conns : List (Option ℕ)
  pub calls : List Call
  pub world : World

unfoldable pub find_thread : ℕ → List (ℕ × ℕ) → Option ℕ
find_thread thread [] = none
find_thread thread ((other, object) ∷ entries) =
    let later = find_thread thread entries in if thread == other then some object else later

module _ {World : Type 0} (lib : Library World) (atoi : Bytes → ℕ) (info : ConnectInfo) where
  -- A new object, which is opened whether that succeeds or not.
  unfoldable pub make : ℕ → Pool World → ℕ × Pool World
  make thread p =
      let (ok, m) =
        open_conn lib atoi info (record { conn = none; calls = p.calls; world = p.world }) in
      (
        length p.conns,
        record {
          entries = p.entries ++ (thread, length p.conns) ∷ [];
          conns = p.conns ++ m.conn ∷ [];
          calls = m.calls;
          world = m.world;
        },
      )

  unfoldable pub get_for : Option ℕ → ℕ → Pool World → ℕ × Pool World
  get_for none thread p = make thread p
  get_for (some object) thread p = (object, p)

  -- `get` of a thread.
  unfoldable pub get_conn : ℕ → Pool World → ℕ × Pool World
  get_conn thread p = get_for (find_thread thread p.entries) thread p

  -- Calls of `get` by threads.
  unfoldable pub get_all : List ℕ → Pool World → Pool World
  get_all [] p = p
  get_all (thread ∷ threads) p = get_all threads (get_conn thread p).1
