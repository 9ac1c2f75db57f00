-- ===== src/Net/Stream.antt =====
-- The bytes of a connection: those that `send` took and those in the buffer.
use hzrobot.Prelude.{
  ℕ, zero, suc, ◌+◌, ◌-◌, ◌≤◌, ◌<◌, true, false, ltb, some, List, [], ◌∷◌, ◌++◌, append-nil,
  append_assoc, Bytes, length, take, drop, length-append, length-drop, take-append-drop,
  drop-append, ◌≡◌, ◌≢◌, refl, ◌∙◌, ap, ap₂, subst, sym, inl, inr, arith, Bool-cases, Option-cases,
}
use hzrobot.Net.{
  plain, Poll, Effect, sends, adds, modifies, deletes, shuts, Engine, Life, alive, deleted,
  undefined, and_then, Callbacks, do_monitor_events, close,
}
use hzrobot.Net.Send.{
  Sent, took, ewouldblock, econnreset, eintr, eother, Ending, breaks, closes, gives_up, Looped,
  do_send_loop, monitor_rest, flush, log_sends, call_send, after_loop, do_send,
}

abbrev pub wire : List Effect → Bytes
wire [] = []
wire (sends taken ∷ effects) = taken ++ wire effects
wire (adds fd events ∷ effects) = wire effects
wire (modifies fd events ∷ effects) = wire effects
wire (deletes fd ∷ effects) = wire effects
wire (shuts fd ∷ effects) = wire effects

abbrev pub stream : Engine → Bytes
stream e = wire e.effects ++ e.conn.send_buf

-- Each call takes no more than it is given, and fails with no error but those that `do_send` knows.
abbrev pub IsTaking : List Sent → ℕ → Type 0
IsTaking [] left = Unit
IsTaking (took n ∷ results) left = n ≤ left × IsTaking results (left - n)
IsTaking (ewouldblock ∷ results) left = Unit
IsTaking (econnreset ∷ results) left = Unit
IsTaking (eintr ∷ results) left = IsTaking results left
IsTaking (eother ∷ results) left = ⊥

wire-append : (xs ys : List Effect) → wire (xs ++ ys) ≡ wire xs ++ wire ys
wire-append [] ys = refl
wire-append (sends taken ∷ xs) ys =
    ap (◌++◌ taken) (wire-append xs ys) ∙ sym (append_assoc taken (wire xs) (wire ys))
wire-append (adds fd events ∷ xs) ys = wire-append xs ys
wire-append (modifies fd events ∷ xs) ys = wire-append xs ys
wire-append (deletes fd ∷ xs) ys = wire-append xs ys
wire-append (shuts fd ∷ xs) ys = wire-append xs ys

-- What the loop leaves: the bytes that were taken, and those that are left.
abbrev pub Left : Looped → Bytes → ℕ → Bytes → Type 0
Left looped data_ total taken =
    (rest : Bytes) × looped.taken ++ rest ≡ taken ++ data_
    × looped.total + length rest ≡ total + length data_
    × looped.ending ≢ gives_up

stops :
    (ending : Ending)
    → ending ≢ gives_up
    → (data_ : Bytes) (total : ℕ) (taken : Bytes) (looped : Looped)
    → some (record { ending = ending; total = total; taken = taken }) ≡ some looped
    → Left looped data_ total taken
stops ending known data_ total taken looped e =
    let same : record { ending = ending; total = total; taken = taken } ≡ looped = cc in
    subst (λ l. Left l data_ total taken) same (data_, refl, refl, known)

do_send_loop_lem :
    (results : List Sent) (data_ : Bytes) (total : ℕ) (taken : Bytes) (looped : Looped)
    → IsTaking results (length data_)
    → do_send_loop results data_ total taken ≡ some looped
    → Left looped data_ total taken
unfolding do_send_loop
do_send_loop_lem results [] total taken looped ok e =
    stops breaks (λ q. absurd cc) [] total taken looped e
do_send_loop_lem [] (c ∷ cs) total taken looped ok e = absurd cc
do_send_loop_lem (took zero ∷ results) (c ∷ cs) total taken looped ok e =
    stops closes (λ q. absurd cc) (c ∷ cs) total taken looped e
do_send_loop_lem (took (suc n) ∷ results) (c ∷ cs) total taken looped ok e =
    let data_ : Bytes = c ∷ cs in
    let fits : length (drop n cs) ≡ length data_ - suc n = length-drop (suc n) data_ in
    let (rest, bytes, sizes, known) =
      do_send_loop_lem results (drop n cs) (total + suc n) (taken ++ take (suc n) data_) looped
        (subst (IsTaking results) (sym fits) ok.1) e in
    (
      rest,
      bytes
          ∙ append_assoc taken (take (suc n) data_) (drop n cs)
          ∙ ap (◌++◌ taken) (take-append-drop (suc n) data_),
      omega (arith, sizes, fits, ok.0),
      known,
    )
do_send_loop_lem (ewouldblock ∷ results) (c ∷ cs) total taken looped ok e =
    stops breaks (λ q. absurd cc) (c ∷ cs) total taken looped e
do_send_loop_lem (econnreset ∷ results) (c ∷ cs) total taken looped ok e =
    stops closes (λ q. absurd cc) (c ∷ cs) total taken looped e
do_send_loop_lem (eintr ∷ results) (c ∷ cs) total taken looped ok e =
    do_send_loop_lem results (c ∷ cs) total taken looped ok e
do_send_loop_lem (eother ∷ results) (c ∷ cs) total taken looped ok e = absurd ok

-- The bytes of an object that is alive, and EPOLLOUT while bytes are left.
abbrev pub IsPolled : Engine → Type 0
IsPolled e = 0 < length e.conn.send_buf → e.conn.monitor_events.pollout ≡ true

-- An object with the same bytes, of the same class.
abbrev pub Same : Engine → Engine → Type 0
Same e e' = stream e' ≡ stream e × e'.conn.class ≡ e.conn.class

do_monitor_events-Same : (events : Poll) (e : Engine) → Same e (do_monitor_events events e)
unfolding do_monitor_events
do_monitor_events-Same events e = elim (Bool-cases e.conn.bind_epoll) [
  | inl q ↦
      rw q (
        ap (λ w. w ++ e.conn.send_buf) (wire-append e.effects _ ∙ append-nil (wire e.effects)),
        refl,
      )
  | inr q ↦
      rw q (
        ap (λ w. w ++ e.conn.send_buf) (wire-append e.effects _ ∙ append-nil (wire e.effects)),
        refl,
      )
]

monitor_rest-Same : (e : Engine) → Same e (monitor_rest e) × IsPolled (monitor_rest e)
unfolding monitor_rest do_monitor_events
monitor_rest-Same e = elim (Bool-cases (ltb 0 (length e.conn.send_buf))) [
  | inl p ↦ elim (Bool-cases e.conn.monitor_events.pollout) [
    | inl q ↦ rw (p, q) ((refl, refl), λ h. refl)
    | inr q ↦
        rw (p, q)
          (do_monitor_events-Same (record (e.conn.monitor_events) { pollout = true }) e, λ h. refl)
  ]
  | inr p ↦ elim (Bool-cases e.conn.monitor_events.pollout) [
    | inl q ↦
        rw (p, q)
          (
            do_monitor_events-Same (record (e.conn.monitor_events) { pollout = false }) e,
            λ h. absurd (ground arith),
          )
    | inr q ↦ rw (p, q) ((refl, refl), λ h. absurd (ground arith))
  ]
]

-- What `do_send` leaves of an object that is alive after it.
abbrev pub Goes : Engine → Life → Type 0
Goes e (alive e') = Same e e' × IsPolled e'
Goes e (deleted e') = Unit
Goes e (undefined e') = Unit

Goes-trans : (e e1 : Engine) (life : Life) → Same e e1 → Goes e1 life → Goes e life
Goes-trans e e1 (alive e2) same goes = ((goes.0.0 ∙ same.0, goes.0.1 ∙ same.1), goes.1)
Goes-trans e e1 (deleted e2) same goes = tt
Goes-trans e e1 (undefined e2) same goes = tt

module _ (callbacks : Callbacks) where
  -- The callback of `do_send` leaves the bytes alone.
  abbrev pub IsQuiet : Type 0
  IsQuiet = (n : ℕ) (e : Engine) → Same e (callbacks.send_callback n e).1

  close-plain : (e : Engine) → e.conn.class ≡ plain → (e' : Engine) × close callbacks e ≡ deleted e'
  unfolding close
  close-plain e is_plain = rw is_plain (_, refl)

  log-flush-Same :
      (e : Engine) (total : ℕ) (taken rest : Bytes)
      → taken ++ rest ≡ e.conn.send_buf
      → total + length rest ≡ length e.conn.send_buf
      → Same e (flush total (log_sends taken e))
  log-flush-Same e total taken rest bytes sizes =
      let exact : total ≡ length taken =
        omega (arith, sizes, length-append taken rest, ap length bytes) in
      let dropped : drop total e.conn.send_buf ≡ rest =
        ap₂ drop exact (sym bytes) ∙ drop-append taken rest in
      (
        ap₂ (λ w r. w ++ r)
              (wire-append e.effects (sends taken ∷ [])
                ∙ ap (◌++◌ (wire e.effects)) (append-nil taken))
              dropped
            ∙ append_assoc (wire e.effects) taken rest
            ∙ ap (◌++◌ (wire e.effects)) bytes,
        refl,
      )

  call_send-Goes :
      (total : ℕ) (e : Engine)
      → IsQuiet
      → e.conn.class ≡ plain
      → Goes e (and_then (call_send callbacks total e) (λ e1. alive (monitor_rest e1)))
  unfolding call_send and_then
  call_send-Goes total e quiet is_plain =
      let same = quiet total e in
      let e1 = (callbacks.send_callback total e).1 in
      elim (Bool-cases (ltb 0 total)) [
        | inl p ↦ elim (Bool-cases (callbacks.send_callback total e).0) [
          | inl q ↦
              rw (p, q) (Goes-trans e e1 (alive (monitor_rest e1)) same (monitor_rest-Same e1))
          | inr q ↦ rw (p, q) (rw ((close-plain e1 (same.1 ∙ is_plain)).1) tt)
        ]
        | inr p ↦ rw p (monitor_rest-Same e)
      ]

  after_loop-Goes :
      (ending : Ending) (total : ℕ) (taken : Bytes) (e : Engine)
      → IsQuiet
      → e.conn.class ≡ plain
      → Left (record { ending = ending; total = total; taken = taken }) e.conn.send_buf 0 []
      → Goes e (after_loop callbacks (record { ending = ending; total = total; taken = taken }) e)
  unfolding after_loop
  after_loop-Goes breaks total taken e quiet is_plain (rest, bytes, sizes, known) =
      let e1 = flush total (log_sends taken e) in
      Goes-trans e e1 _ (log-flush-Same e total taken rest bytes (omega (arith, sizes)))
        (call_send-Goes total e1 quiet is_plain)
  after_loop-Goes closes total taken e quiet is_plain left =
      rw ((close-plain (log_sends taken e) is_plain).1) tt
  after_loop-Goes gives_up total taken e quiet is_plain left = absurd (left.3 refl)

  pub do_send-Goes :
      (results : List Sent) (e : Engine) (life : Life)
      → IsQuiet
      → e.conn.class ≡ plain
      → IsTaking results (length e.conn.send_buf)
      → do_send callbacks results e ≡ some life
      → Goes e life
  unfolding do_send
  do_send-Goes results e life quiet is_plain ok =
      elim (Bool-cases (ltb 0 (length e.conn.send_buf))) [
        | inl p ↦ elim (Option-cases (do_send_loop results e.conn.send_buf 0 [])) [
          | inl q ↦ rw (p, q) (λ h. absurd cc)
          | inr (looped, q) ↦
              rw (p, q)
                (λ h.
                  let same : after_loop callbacks looped e ≡ life = cc in
                  subst (Goes e) same (
                    after_loop-Goes looped.ending looped.total looped.taken e quiet is_plain
                      (do_send_loop_lem results e.conn.send_buf 0 [] looped ok q)))
        ]
        | inr p ↦ rw p (λ h.
            let same : alive e ≡ life = cc in
            subst (Goes e) same ((refl, refl), λ some_left. absurd (ground arith)))
      ]
