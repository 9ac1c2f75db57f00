-- ===== src/Net/Ends.antt =====
-- When the loop of `do_send` ends, and what a callback that refuses does to the object.
use hzrobot.Prelude.{
  ℕ, zero, suc, ◌+◌, ◌≤◌, ◌<◌, true, false, ltb, some, List, [], ◌∷◌, ◌++◌, Bytes, length, take,
  drop, length-drop, ◌≡◌, refl, inl, inr, arith, Bool-cases,
}
use hzrobot.Net.{plain, Engine, Life, undefined, and_then, Callbacks, close}
use hzrobot.Net.Send.{
  Sent, took, ewouldblock, econnreset, eintr, eother, breaks, Looped, do_send_loop, flush,
  log_sends, call_send, after_loop, do_send,
}

-- The calls that are not interrupted.
abbrev pub answers : List Sent → ℕ
answers [] = 0
answers (took n ∷ results) = suc (answers results)
answers (ewouldblock ∷ results) = suc (answers results)
answers (econnreset ∷ results) = suc (answers results)
answers (eintr ∷ results) = answers results
answers (eother ∷ results) = suc (answers results)

do_send_loop-ends :
    (results : List Sent) (data_ : Bytes) (total : ℕ) (taken : Bytes)
    → length data_ ≤ answers results
    → (looped : Looped) × do_send_loop results data_ total taken ≡ some looped
unfolding do_send_loop
do_send_loop-ends results [] total taken enough = (_, refl)
do_send_loop-ends [] (c ∷ cs) total taken enough = absurd (omega (arith, enough))
do_send_loop-ends (took zero ∷ results) (c ∷ cs) total taken enough = (_, refl)
do_send_loop-ends (took (suc n) ∷ results) (c ∷ cs) total taken enough =
    do_send_loop-ends results (drop n cs) (total + suc n) (taken ++ take (suc n) (c ∷ cs))
      (omega (arith, enough, length-drop n cs))
do_send_loop-ends (ewouldblock ∷ results) (c ∷ cs) total taken enough = (_, refl)
do_send_loop-ends (econnreset ∷ results) (c ∷ cs) total taken enough = (_, refl)
do_send_loop-ends (eintr ∷ results) (c ∷ cs) total taken enough =
    do_send_loop-ends results (c ∷ cs) total taken enough
do_send_loop-ends (eother ∷ results) (c ∷ cs) total taken enough = (_, refl)

module _ (callbacks : Callbacks) where
  -- `do_send` returns after at most as many calls of `send` as the buffer has bytes, calls that
  -- were interrupted not counted.
  pub do_send-ends :
      (results : List Sent) (e : Engine)
      → length e.conn.send_buf ≤ answers results
      → (life : Life) × do_send callbacks results e ≡ some life
  unfolding do_send
  do_send-ends results e enough =
      let (looped, done) = do_send_loop-ends results e.conn.send_buf 0 [] enough in
      elim (Bool-cases (ltb 0 (length e.conn.send_buf))) [
        | inl p ↦ rw (p, done) (_, refl)
        | inr p ↦ rw p (_, refl)
      ]

  -- Where the loop has sent bytes and the send callback then refuses and leaves a plain object, the
  -- object is used after it was deleted.
  do_send-refused :
      (results : List Sent) (e : Engine) (total : ℕ) (taken : Bytes)
      → 0 < length e.conn.send_buf
      → 0 < total
      → do_send_loop results e.conn.send_buf 0 []
        ≡ some (record { ending = breaks; total = total; taken = taken })
      → (callbacks.send_callback total (flush total (log_sends taken e))).0 ≡ false
      → (callbacks.send_callback total (flush total (log_sends taken e))).1.conn.class ≡ plain
      → (e' : Engine) × do_send callbacks results e ≡ some (undefined e')
  unfolding do_send after_loop call_send close and_then
  do_send-refused results e total taken some_bytes positive loops refuses is_plain =
      let p : ltb 0 (length e.conn.send_buf) ≡ true = ground arith in
      let q : ltb 0 total ≡ true = ground arith in
      rw (p, loops) (rw (q, refuses) (rw is_plain (_, refl)))
