-- ===== src/Net/Runs.antt =====
-- A connection over any number of calls of `async_sendv` and `do_send`.
use hzrobot.Prelude.{
  ◌<◌, Bool, true, false, if◌then◌else◌, Option, some, List, [], ◌∷◌, ◌++◌, append-nil,
  append_assoc, Bytes, length, ◌≡◌, refl, ◌∙◌, ap, subst, sym,
}
use hzrobot.Net.{plain, Engine, Life, alive, Callbacks}
use hzrobot.Net.Send.{Sent, do_send, append_all, async_sendv}
use hzrobot.Net.Stream.{wire, stream, IsTaking, Same, IsPolled, IsQuiet, Goes, do_send-Goes}

abbrev pub joined : List Bytes → Bytes
joined [] = []
joined (block ∷ blocks) = block ++ joined blocks

append_all-joined :
    (buf : Bytes) (blocks : List Bytes) → append_all buf blocks ≡ buf ++ joined blocks
append_all-joined buf [] = sym (append-nil buf)
append_all-joined buf (block ∷ blocks) =
    append_all-joined (buf ++ block) blocks ∙ append_assoc buf block (joined blocks)

-- The engine to append to.
abbrev pub appended_to : Engine → List Bytes → Engine
appended_to e blocks = record e {
  conn = record (e.conn) { send_buf = append_all e.conn.send_buf blocks };
}

module _ (callbacks : Callbacks) (e0 : Engine) where
  -- The calls from `e0` that leave an object alive, with the bytes that they append.
  pub data Runs : Bytes → Engine → Type 0 where
    starts : Runs [] e0
    appends :
        (bytes : Bytes) (e e' : Engine) (results : List Sent) (blocks : List Bytes) (flushes : Bool)
        → Runs bytes e
        → IsTaking results (length (append_all e.conn.send_buf blocks))
        → async_sendv callbacks results blocks flushes e ≡ some (alive e')
        → Runs (bytes ++ joined blocks) e'
    writes :
        (bytes : Bytes) (e e' : Engine) (results : List Sent)
        → Runs bytes e
        → IsTaking results (length e.conn.send_buf)
        → do_send callbacks results e ≡ some (alive e')
        → Runs bytes e'

sent_or_kept :
    (polled : Bool) (e e' : Engine) (sent : Option Life)
    → e.conn.monitor_events.pollout ≡ polled
    → (sent ≡ some (alive e') → Goes e (alive e'))
    → (if polled then some (alive e) else sent) ≡ some (alive e')
    → Goes e (alive e')
sent_or_kept true e e' sent polled goes h =
    let same : e ≡ e' = cc in subst (λ x. Goes e (alive x)) same ((refl, refl), λ some_left. polled)
sent_or_kept false e e' sent polled goes h = goes h

module _ (callbacks : Callbacks) where
  async_sendv-Same :
      (results : List Sent) (blocks : List Bytes) (flushes : Bool) (e e' : Engine)
      → IsQuiet callbacks
      → e.conn.class ≡ plain
      → IsTaking results (length (append_all e.conn.send_buf blocks))
      → async_sendv callbacks results blocks flushes e ≡ some (alive e')
      → Same (appended_to e blocks) e' × (flushes ≡ true → IsPolled e')
  unfolding async_sendv
  async_sendv-Same results blocks false e e' quiet is_plain ok = λ h.
      let same : appended_to e blocks ≡ e' = cc in
      (subst (Same (appended_to e blocks)) same (refl, refl), λ q. absurd cc)
  async_sendv-Same results blocks true e e' quiet is_plain ok = λ h.
      let goes =
        sent_or_kept e.conn.monitor_events.pollout (appended_to e blocks) e'
          (do_send callbacks results (appended_to e blocks)) refl
          (do_send-Goes callbacks results (appended_to e blocks) (alive e') quiet is_plain ok) h in
      (goes.0, λ _. goes.1)

  -- While bytes are left in the buffer after a flushing `async_sendv` that leaves a plain object
  -- alive, EPOLLOUT is monitored, where the send callback leaves the bytes and the class alone and
  -- `send` takes no more than it is given and fails with no error that `do_send` does not know.
  pub async_sendv-IsPolled :
      (results : List Sent) (blocks : List Bytes) (e e' : Engine)
      → IsQuiet callbacks
      → e.conn.class ≡ plain
      → IsTaking results (length (append_all e.conn.send_buf blocks))
      → async_sendv callbacks results blocks true e ≡ some (alive e')
      → 0 < length e'.conn.send_buf
      → e'.conn.monitor_events.pollout ≡ true
  async_sendv-IsPolled results blocks e e' quiet is_plain ok h =
      (async_sendv-Same results blocks true e e' quiet is_plain ok h).1 refl

  -- Over any calls of `async_sendv` and `do_send` that leave a plain object alive, what `send` took
  -- and then what the buffer holds are the bytes that were there at the start and then all bytes
  -- that were appended, in order, where the send callback leaves the bytes and the class alone and
  -- `send` takes no more than it is given and fails with no error that `do_send` does not know.
  pub Runs-stream :
      (e0 e : Engine) (bytes : Bytes)
      → IsQuiet callbacks
      → e0.conn.class ≡ plain
      → Runs callbacks e0 bytes e
      → wire e.effects ++ e.conn.send_buf ≡ (wire e0.effects ++ e0.conn.send_buf) ++ bytes
  Runs-stream e0 e bytes quiet is_plain run = (Runs-kept run).0
    where
      Runs-kept :
          {bytes : Bytes} {e : Engine}
          → Runs callbacks e0 bytes e
          → stream e ≡ stream e0 ++ bytes × e.conn.class ≡ plain
      Runs-kept starts = (sym (append-nil (stream e0)), is_plain)
      Runs-kept (appends bytes e e' results blocks flushes run ok h) =
          let before = Runs-kept run in
          let same = (async_sendv-Same results blocks flushes e e' quiet before.1 ok h).0 in
          (
            same.0
                ∙ ap (◌++◌ (wire e.effects)) (append_all-joined e.conn.send_buf blocks)
                ∙ sym (append_assoc (wire e.effects) e.conn.send_buf (joined blocks))
                ∙ ap (λ b. b ++ joined blocks) before.0
                ∙ append_assoc (stream e0) bytes (joined blocks),
            same.1 ∙ before.1,
          )
      Runs-kept (writes bytes e e' results run ok h) =
          let before = Runs-kept run in
          let goes = do_send-Goes callbacks results e (alive e') quiet before.1 ok h in
          (goes.0.0 ∙ before.0, goes.0.1 ∙ before.1)
