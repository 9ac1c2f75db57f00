-- ===== src/Tests/Reconnect.antt =====
-- A connector that reconnects, after its send callback refused.
use hzrobot.Prelude.{Bool, true, some, [], ◌∷◌, codes, ◌≡◌, refl, arith}
use hzrobot.Net.{connector, adds, modifies, Engine, alive, close}
use hzrobot.Net.Send.{took, ewouldblock, breaks, do_send_loop, do_send, flush, log_sends}
use hzrobot.Net.Connector.{System, e_inprocess, async_connect}
use hzrobot.Net.Reconnect.{EndsWith, pollout_only, close-adds, do_send-modifies}
use hzrobot.Tests.Net.{fresh, callbacks}

abbrev client : Engine
client = record fresh {
  conn = record (fresh.conn) { class = connector true 5000; send_buf = codes "abcde" };
}

abbrev system : System
system = record { created = some 9; bound = true; connected = e_inprocess }

abbrev ignores : Bool → Engine → Engine
ignores done e = e

close-adds_example :
    (e : Engine) × close (callbacks 100) client ≡ alive e
    × EndsWith (adds (some 9) pollout_only) (async_connect ignores system e).1.effects
close-adds_example =
    close-adds (callbacks 100) ignores client 7 5000 9 system (λ e. refl) refl refl
      (refl, refl, refl)

abbrev refused : Engine
refused = flush 2 (log_sends (codes "ab") client)

loops :
    do_send_loop (took 2 ∷ ewouldblock ∷ []) client.conn.send_buf 0 []
    ≡ some (record { ending = breaks; total = 2; taken = codes "ab" })
unfolding do_send_loop
loops = refl

do_send-modifies_example :
    (e : Engine) × do_send (callbacks 1) (took 2 ∷ ewouldblock ∷ []) client ≡ some (alive e)
    × EndsWith (modifies (some 9) pollout_only) (async_connect ignores system e).1.effects
do_send-modifies_example =
    do_send-modifies (callbacks 1) ignores (took 2 ∷ ewouldblock ∷ []) client refused 2 (codes "ab")
      7 5000 9 system (λ e. refl) (omega arith) (omega arith) loops refl refl refl (omega arith)
      refl (refl, refl, refl)
