-- ===== src/Http/Sending.antt =====
-- The sending loop of Include/http/hpp/http_client.hpp.
use hzrobot.Prelude.{
  ℕ, zero, suc, ◌+◌, ◌-◌, ◌%◌, ◌^◌, ◌<◌, true, false, ◌==◌, some, List, [], ◌∷◌, All, ◌≡◌, refl,
  ◌∙◌, ap, arith,
}
use hzrobot.Http.Client.{send_loop}

send_loop-suc :
    (size len rc : ℕ) (rcs : List ℕ)
    → 0 < rc
    → 0 < len
    → send_loop size len (rc ∷ rcs) ≡ send_loop size ((len + 2 ^ 64 - rc) % 2 ^ 64) rcs
unfolding send_loop
send_loop-suc size zero rc rcs h k = absurd (omega arith)
send_loop-suc size (suc len) rc rcs h k =
    let positive : (rc == 0) ≡ false = ground arith in rw positive refl

abbrev sum : List ℕ → ℕ
sum [] = 0
sum (x ∷ xs) = x + sum xs

-- The sending loop ends with success when the calls together have taken as many bytes as the data
-- has.
send_loop-sum :
    (size len : ℕ) (rcs : List ℕ)
    → All (λ rc. 0 < rc) rcs
    → sum rcs ≡ len
    → len < 2 ^ 64
    → send_loop size len rcs ≡ some true
unfolding send_loop
send_loop-sum size zero rcs positive total bound = refl
send_loop-sum size (suc len) [] positive total bound = absurd (omega (arith, total))
send_loop-sum size (suc len) (rc ∷ rcs) positive total bound =
    send_loop-suc size (suc len) rc rcs positive.0 (omega arith)
    ∙ send_loop-sum size ((suc len + 2 ^ 64 - rc) % 2 ^ 64) rcs positive.1 (omega (arith, total))
        (omega arith)

-- Where a call takes a part of the data and the next call takes all of it, which it is given
-- again, the loop does not end: what is left to send wraps around to `2 ^ 64` less the part.
send_loop-partial :
    (size rc : ℕ) (rcs : List ℕ)
    → 0 < rc
    → rc < size
    → size < 2 ^ 64
    → send_loop size size (rc ∷ size ∷ rcs) ≡ send_loop size (2 ^ 64 - rc) rcs
send_loop-partial size rc rcs h k b =
    send_loop-suc size size rc (size ∷ rcs) h (omega arith)
    ∙ send_loop-suc size ((size + 2 ^ 64 - rc) % 2 ^ 64) size rcs (omega arith) (omega arith)
    ∙ ap (λ n. send_loop size n rcs) (omega arith)
