-- ===== src/Queue/Fifo.antt =====
-- Items leave the queue in the order in which they came.
use hzrobot.Prelude.{
  ℕ, List, [], ◌∷◌, ◌++◌, ◌≡◌, refl, sym, ap, ◌∙◌, append-nil, append_assoc, ◌≡⟨◌⟩◌, ◌∎,
}
use hzrobot.Queue.{Queue, put, get, resume, take_front}
use hzrobot.Queue.Steps.{got, Step, puts, gets, resumes, wakes_spuriously, Run, here, next}

module _ {ℓ} {A : Type ℓ} where
  take_front-got :
      (xs : List A) (b w : ℕ) → xs ≡ got (take_front xs b w).1 ++ (take_front xs b w).0.items
  unfolding take_front
  take_front-got [] b w = refl
  take_front-got (x ∷ xs) b w = refl

  Step-order : {q r : Queue A} {ps gs : List A} → Step q ps gs r → q.items ++ ps ≡ gs ++ r.items
  unfolding put get resume
  Step-order (puts x q) = refl
  Step-order (gets q) = append-nil q.items ∙ take_front-got q.items q.blocked q.woken
  Step-order (resumes q h) = append-nil q.items ∙ take_front-got q.items q.blocked _
  Step-order (wakes_spuriously q h) = append-nil q.items

  -- Over every interleaving of producers, consumers and wake-ups, what was delivered followed by
  -- what is still queued is what was queued at first followed by what was put: nothing is lost,
  -- duplicated or reordered.
  pub Run-order : {q r : Queue A} {ps gs : List A} → Run q ps gs r → q.items ++ ps ≡ gs ++ r.items
  Run-order {q} here = append-nil q.items
  Run-order {q} (next {ps} {gs} {ps'} {gs'} {r} {s} run st) =
      q.items ++ (ps ++ ps')
      ≡⟨ sym (append_assoc q.items ps ps') ⟩ (q.items ++ ps) ++ ps'
      ≡⟨ ap (λ t. t ++ ps') (Run-order run) ⟩ (gs ++ r.items) ++ ps'
      ≡⟨ append_assoc gs r.items ps' ⟩ gs ++ (r.items ++ ps')
      ≡⟨ ap (◌++◌ gs) (Step-order st) ⟩ gs ++ (gs' ++ s.items)
      ≡⟨ sym (append_assoc gs gs' s.items) ⟩ (gs ++ gs') ++ s.items ∎
