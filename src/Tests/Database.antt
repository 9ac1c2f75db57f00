-- ===== src/Tests/Database.antt =====
-- A connection whose server is lost at the first statement.
use mathlib.Core.Option
use hzrobot.Prelude.{
  equal, Bytes, Option, ℕ, suc, true, not, ◌==◌, some, none, List, [], ◌∷◌, codes, c_str, length,
  ◌≡◌, ◌≢◌, refl,
}
use hzrobot.Text.Search.{find, find_first, starts_with}
use hzrobot.Net.Address.{parse_addr}
use hzrobot.Database.{
  ConnectInfo, Library, inits, closes, queries, Mysql, close_conn, endpoint, connect_handle,
  open_from, open_conn, ask_again, request_on, request,
}
use hzrobot.Database.Result.{parse_result, get_named, get_named-parse_result}
use hzrobot.Database.Pool.{Pool, find_thread, get_conn, get_all}
use hzrobot.Database.Pool.Threads.{get_conn-own}
use hzrobot.Database.Handles.{
  IsBalanced, Use, opens, shuts, begins, commits, requests, selects, executes, all_used,
  all_used-IsBalanced,
}

abbrev info : ConnectInfo
info = record {
  addr = codes "db:3306";
  database = codes "robot";
  user = codes "u";
  password = [];
  charset = codes "utf8";
  flags = 0;
  conn_timeout = 0;
  rw_timeout = 0;
  auto_commit = true;
}

-- The world counts the calls; the statement that is its call 1 fails.
abbrev lib : Library ℕ
lib = record {
  init = λ w. (some w, suc w);
  connects = λ h i e w. (true, w);
  set_character_set = λ h c w. w;
  hang_up = λ h w. w;
  autocommit = λ h b w. (true, w);
  query = λ h sql w. (not (w == 1), suc w);
  errno = λ h w. 2006;
  store_result = λ h w. (some 1, w);
  affected_rows = λ h w. some 1;
}

abbrev fresh : Mysql ℕ
fresh = record { conn = none; calls = []; world = 0 }

asked_again :
    (request lib length info (codes "q") (open_conn lib length info fresh).1).1.calls
    ≡ inits 0 ∷ queries 0 (codes "q") ∷ closes 0 ∷ inits 2 ∷ queries 2 (codes "q") ∷ []
unfolding request request_on ask_again open_conn open_from connect_handle close_conn endpoint
    parse_addr find find_first starts_with c_str
asked_again = refl

abbrev uses : List (Use lib length info)
uses =
    opens
    ∷ begins
    ∷ requests (codes "q")
    ∷ selects (codes "r")
    ∷ executes (codes "x")
    ∷ commits
    ∷ shuts
    ∷ []

all_used-IsBalanced_example : IsBalanced (all_used lib length info uses fresh)
all_used-IsBalanced_example = all_used-IsBalanced lib length info uses fresh refl

abbrev fields : List Bytes
fields = codes "id" ∷ codes "name" ∷ codes "id" ∷ []

abbrev rows : List (List (Option Bytes))
rows = (some (codes "1") ∷ none ∷ some (codes "7") ∷ []) ∷ []

get_named-parse_result_example :
    get_named 0 (codes "id") (parse_result fields rows) ≡ some (codes "1")
unfolding equal Option.bind
get_named-parse_result_example = get_named-parse_result fields rows 0 (codes "id")

-- A pool that no thread has asked yet.
abbrev empty_pool : Pool ℕ
empty_pool = record { entries = []; conns = []; calls = []; world = 0 }

abbrev pool : Pool ℕ
pool = get_all lib length info (4 ∷ 5 ∷ []) (get_conn lib length info 3 empty_pool).1

get_conn-own_example :
    (get_conn lib length info 3 pool ≡ ((get_conn lib length info 3 empty_pool).0, pool))
    × (◌≢◌ {A = ℕ} 3 5
        → (get_conn lib length info 5 pool).0 ≢ (get_conn lib length info 3 empty_pool).0)
unfolding find_thread
get_conn-own_example =
    get_conn-own lib length info 3 5 (4 ∷ 5 ∷ []) empty_pool ((λ t i h. cc), (λ t u i h k. cc))
