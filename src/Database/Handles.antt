-- ===== src/Database/Handles.antt =====
-- The handles of a connection to the database: none is lost, none is closed twice.
use hzrobot.Prelude.{
  ℕ, suc, ◌+◌, Bool, true, false, ◌==◌, if◌then◌else◌, Option, some, none, List, [], ◌∷◌, ◌++◌,
  Bytes, codes, c_str, ◌≡◌, arith, inl, inr, Bool-cases, Option-cases,
}
use hzrobot.Database.{
  ConnectInfo, Library, Call, inits, closes, queries, Mysql, close_conn, connect_handle, open_from,
  open_conn, ask, ask_again, request_on, endpoint, with_charset, request, store, select, exists,
  execute, begin_transaction, commit, is_lost,
}

-- The handles that are open after the calls: those that were given, without those closed.
abbrev pub opened : List Call → ℕ
opened [] = 0
opened (inits h ∷ calls) = suc (opened calls)
opened (_ ∷ calls) = opened calls

abbrev pub shut : List Call → ℕ
shut [] = 0
shut (closes h ∷ calls) = suc (shut calls)
shut (_ ∷ calls) = shut calls

abbrev pub held : Option ℕ → ℕ
held none = 0
held (some h) = 1

abbrev pub Balanced : Option ℕ → List Call → Type 0
Balanced conn calls = opened calls ≡ shut calls + held conn

opened-append : (xs ys : List Call) → opened (xs ++ ys) ≡ opened xs + opened ys
opened-append [] ys = omega arith
opened-append (inits h ∷ xs) ys = omega (arith, opened-append xs ys)
opened-append (closes h ∷ xs) ys = opened-append xs ys
opened-append (queries h sql ∷ xs) ys = opened-append xs ys

shut-append : (xs ys : List Call) → shut (xs ++ ys) ≡ shut xs + shut ys
shut-append [] ys = omega arith
shut-append (inits h ∷ xs) ys = shut-append xs ys
shut-append (closes h ∷ xs) ys = omega (arith, shut-append xs ys)
shut-append (queries h sql ∷ xs) ys = shut-append xs ys

Balanced-closes :
    (h : ℕ) (calls : List Call) → Balanced (some h) calls → Balanced none (calls ++ closes h ∷ [])
Balanced-closes h calls b =
    omega (arith, b, opened-append calls (closes h ∷ []), shut-append calls (closes h ∷ []))

Balanced-inits :
    (h : ℕ) (calls : List Call) → Balanced none calls → Balanced (some h) (calls ++ inits h ∷ [])
Balanced-inits h calls b =
    omega (arith, b, opened-append calls (inits h ∷ []), shut-append calls (inits h ∷ []))

Balanced-queries :
    (conn : Option ℕ) (h : ℕ) (sql : Bytes) (calls : List Call)
    → Balanced conn calls
    → Balanced conn (calls ++ queries h sql ∷ [])
Balanced-queries conn h sql calls b =
    omega
      (arith, b, opened-append calls (queries h sql ∷ []), shut-append calls (queries h sql ∷ []))

abbrev pub IsBalanced : {World : Type 0} → Mysql World → Type 0
IsBalanced m = Balanced m.conn m.calls

module _ {World : Type 0} (lib : Library World) where
  abbrev LeavesBalanced : Bool × Mysql World → Type 0
  LeavesBalanced (ok, m) = IsBalanced m

  -- The object with its parts.
  abbrev at : Option ℕ → List Call → World → Mysql World
  at conn calls w = record { conn = conn; calls = calls; world = w }

  close_conn-IsBalanced :
      (conn : Option ℕ) (calls : List Call) (w : World)
      → Balanced conn calls
      → IsBalanced (close_conn lib (at conn calls w))
  unfolding close_conn
  close_conn-IsBalanced none calls w b = b
  close_conn-IsBalanced (some h) calls w b = Balanced-closes h calls b

  module _ (atoi : Bytes → ℕ) (info : ConnectInfo) where
    connect_handle-IsBalanced :
        (h : ℕ) (calls : List Call) (w : World)
        → Balanced (some h) calls
        → IsBalanced (connect_handle lib atoi info h calls w).1
    unfolding connect_handle
    connect_handle-IsBalanced h calls w b =
        let connected = lib.connects h info (endpoint lib atoi info) w in
        let committing =
          lib.autocommit h info.auto_commit
            (with_charset lib atoi info h info.charset connected.1) in
        elim (Bool-cases connected.0) [
          | inr p ↦ rw p (Balanced-closes h calls b)
          | inl p ↦ elim (Bool-cases committing.0) [
            | inr q ↦ rw p (rw q (Balanced-closes h calls b))
            | inl q ↦ rw p (rw q b)
          ]
        ]

    open_from-IsBalanced :
        (handle : Option ℕ) (calls : List Call) (w : World)
        → Balanced none calls
        → IsBalanced (open_from lib atoi info handle calls w).1
    unfolding open_from
    open_from-IsBalanced none calls w b = b
    open_from-IsBalanced (some h) calls w b =
        connect_handle-IsBalanced h (calls ++ inits h ∷ []) w (Balanced-inits h calls b)

    open_conn-IsBalanced :
        (conn : Option ℕ) (calls : List Call) (w : World)
        → Balanced conn calls
        → IsBalanced (open_conn lib atoi info (at conn calls w)).1
    unfolding open_conn
    open_conn-IsBalanced none calls w b = open_from-IsBalanced (lib.init w).0 calls (lib.init w).1 b
    open_conn-IsBalanced (some h) calls w b = b

    ask_again-IsBalanced :
        (sql : Bytes) (ok : Bool) (conn : Option ℕ) (calls : List Call) (w : World)
        → Balanced conn calls
        → IsBalanced (ask_again lib atoi info sql (ok, at conn calls w)).1
    unfolding ask_again
    ask_again-IsBalanced sql false conn calls w b = b
    ask_again-IsBalanced sql true none calls w b = b
    ask_again-IsBalanced sql true (some h) calls w b =
        Balanced-queries (some h) h (c_str sql) calls b

    request-IsBalanced :
        (sql : Bytes) (conn : Option ℕ) (calls : List Call) (w : World)
        → Balanced conn calls
        → IsBalanced (request lib atoi info sql (at conn calls w)).1
    unfolding request request_on
    request-IsBalanced sql none calls w b = b
    request-IsBalanced sql (some h) calls w b =
        let asked = ask lib atoi info h sql (at (some h) calls w) in
        let kept = Balanced-queries (some h) h (c_str sql) calls b in
        let shut_conn = close_conn lib asked.1 in
        let again = open_conn lib atoi info shut_conn in
        let shut_kept = close_conn-IsBalanced (some h) asked.1.calls asked.1.world kept in
        let open_kept =
          open_conn-IsBalanced shut_conn.conn shut_conn.calls shut_conn.world shut_kept in
        elim (Bool-cases asked.0) [
          | inl p ↦ rw p kept
          | inr p ↦ elim (Bool-cases (is_lost lib atoi info (lib.errno h asked.1.world))) [
            | inl q ↦ rw p (
                rw q (
                  ask_again-IsBalanced sql again.0 again.1.conn again.1.calls again.1.world
                    open_kept))
            | inr q ↦ rw p (rw q kept)
          ]
        ]

    store-IsBalanced :
        (conn : Option ℕ) (calls : List Call) (w : World)
        → Balanced conn calls
        → IsBalanced (store lib atoi info (at conn calls w)).1
    unfolding store
    store-IsBalanced none calls w b = b
    store-IsBalanced (some h) calls w b =
        let stored = lib.store_result h w in
        elim (Option-cases stored.0) [
          | inr (n, p) ↦ rw p b
          | inl p ↦ elim (Bool-cases (lib.errno h stored.1 == 0)) [
            | inl q ↦ rw p (rw q b)
            | inr q ↦ rw p (rw q (close_conn-IsBalanced (some h) calls stored.1 b))
          ]
        ]

    stored-IsBalanced :
        (ok : Bool) (a b : Bool) (m : Mysql World)
        → IsBalanced m
        → LeavesBalanced (if ok then (a, (store lib atoi info m).1) else (b, m))
    stored-IsBalanced true a b m h = store-IsBalanced m.conn m.calls m.world h
    stored-IsBalanced false a b m h = h

    select-IsBalanced :
        (sql : Bytes) (m : Mysql World) → IsBalanced m → IsBalanced (select lib atoi info sql m).1
    unfolding select
    select-IsBalanced sql m h =
        let asked = request lib atoi info sql m in
        stored-IsBalanced asked.0 _ _ asked.1 (request-IsBalanced sql m.conn m.calls m.world h)

    exists-IsBalanced :
        (table : Bytes) (m : Mysql World)
        → IsBalanced m
        → IsBalanced (exists lib atoi info table m).1
    unfolding exists
    exists-IsBalanced table m h =
        let asked =
          request lib atoi info (codes "show tables like '" ++ (c_str table ++ codes "'")) m in
        stored-IsBalanced asked.0 _ _ asked.1 (
          request-IsBalanced (codes "show tables like '" ++ (c_str table ++ codes "'")) m.conn
            m.calls m.world h)

    -- The operations of the object.
    pub data Use : Type 0 where
      opens shuts begins commits : Use
      requests selects seeks executes : Bytes → Use

    abbrev pub used : Use → Mysql World → Mysql World
    used opens m = (open_conn lib atoi info m).1
    used shuts m = close_conn lib m
    used (requests sql) m = (request lib atoi info sql m).1
    used (selects sql) m = (select lib atoi info sql m).1
    used (seeks table) m = (exists lib atoi info table m).1
    used begins m = (begin_transaction lib atoi info m).1
    used commits m = (commit lib atoi info m).1
    used (executes sql) m = (execute lib atoi info sql m).1

    abbrev pub all_used : List Use → Mysql World → Mysql World
    all_used [] m = m
    all_used (u ∷ us) m = all_used us (used u m)

    used-IsBalanced : (u : Use) (m : Mysql World) → IsBalanced m → IsBalanced (used u m)
    unfolding execute begin_transaction commit
    used-IsBalanced opens m h = open_conn-IsBalanced m.conn m.calls m.world h
    used-IsBalanced shuts m h = close_conn-IsBalanced m.conn m.calls m.world h
    used-IsBalanced (requests sql) m h = request-IsBalanced sql m.conn m.calls m.world h
    used-IsBalanced (selects sql) m h = select-IsBalanced sql m h
    used-IsBalanced (seeks table) m h = exists-IsBalanced table m h
    used-IsBalanced begins m h =
        request-IsBalanced (codes "start transaction") m.conn m.calls m.world h
    used-IsBalanced commits m h = request-IsBalanced (codes "commit") m.conn m.calls m.world h
    used-IsBalanced (executes sql) m h = request-IsBalanced sql m.conn m.calls m.world h

    -- Over any operations, the handles that the library gave are as many as those that were closed,
    -- and one more while the object holds one, if they were so at the start.
    pub all_used-IsBalanced :
        (us : List Use) (m : Mysql World) → IsBalanced m → IsBalanced (all_used us m)
    all_used-IsBalanced [] m h = h
    all_used-IsBalanced (u ∷ us) m h = all_used-IsBalanced us (used u m) (used-IsBalanced u m h)
