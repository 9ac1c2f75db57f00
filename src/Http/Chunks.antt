-- ===== src/Http/Chunks.antt =====
-- The chunked bodies of Include/http/hpp/http_client.hpp, where all of a body is in the buffer.
use hzrobot.Prelude.{
  ℕ, zero, suc, ◌+◌, ◌-◌, ◌%◌, ◌^◌, ◌<◌, true, false, ◌==◌, ltb, leb, some, List, [], ◌∷◌, ◌++◌,
  Bytes, All, length, take, drop, c_str, length-append, take-append, drop-append, append_assoc,
  append-nil, ◌≡◌, ◌≢◌, refl, sym, ◌∙◌, ap, ap₂, subst, arith,
}
use hzrobot.Text.Search.{starts_with, find_first, find}
use hzrobot.Http.Message.{crlf}
use hzrobot.Http.Client.{Chunks, all_chunks, as_size, htoi, chunk_at, chunks_loop}

-- A line that `htoi` reads as a number: without a carriage return.
abbrev pub IsSize : Bytes → ℕ → Type 0
IsSize t n = All (λ c. c ≢ b'\r') t × (as_size (htoi (c_str t)) ≡ n)

-- A chunk: the line with its size, and its bytes, of which there is one at least.
abbrev pub IsChunk : Bytes × Bytes → Type 0
IsChunk chunk = IsSize chunk.0 (length chunk.1) × (0 < length chunk.1)

abbrev pub chunk_text : List (Bytes × Bytes) → Bytes
chunk_text [] = []
chunk_text (chunk ∷ rest) = chunk.0 ++ (crlf ++ (chunk.1 ++ (crlf ++ chunk_text rest)))

abbrev pub chunk_data : List (Bytes × Bytes) → Bytes
chunk_data [] = []
chunk_data (chunk ∷ rest) = chunk.1 ++ chunk_data rest

find_first-crlf :
    (t rest : Bytes)
    → All (λ c. c ≢ b'\r') t
    → find_first crlf (t ++ (crlf ++ rest)) ≡ some (length t)
unfolding find_first starts_with
find_first-crlf [] rest h = refl
find_first-crlf (c ∷ cs) rest h =
    let other : (b'\r' == c) ≡ false = ground arith in rw (other, find_first-crlf cs rest h.1) refl

find-crlf :
    (front t rest : Bytes)
    → All (λ c. c ≢ b'\r') t
    → find (front ++ (t ++ (crlf ++ rest))) crlf (length front) ≡ some (length front + length t)
unfolding find
find-crlf front t rest h =
    let within : leb (length front) (length (front ++ (t ++ (crlf ++ rest)))) ≡ true =
      ground (arith, length-append front (t ++ (crlf ++ rest))) in
    rw (within, drop-append front (t ++ (crlf ++ rest)), find_first-crlf t rest h) refl

-- The line that the loop reads at a position.
chunks_loop-line :
    (fuel : ℕ) (front t rest body : Bytes) (n : ℕ)
    → IsSize t n
    → chunks_loop (suc fuel) (front ++ (t ++ (crlf ++ rest))) (length front) body
      ≡ chunk_at
          (chunks_loop fuel (front ++ (t ++ (crlf ++ rest))))
          (front ++ (t ++ (crlf ++ rest)))
          (length front + length t + 2)
          n
          body
unfolding chunks_loop
chunks_loop-line fuel front t rest body n h =
    let buf = front ++ (t ++ (crlf ++ rest)) in
    let cut : take (length front + length t - length front) (drop (length front) buf) ≡ t =
      ap₂ take (omega arith) (drop-append front (t ++ (crlf ++ rest)))
      ∙ take-append t (crlf ++ rest) in
    rw (find-crlf front t rest h.0, chunks_loop)
      (ap
          (λ x.
            chunk_at (chunks_loop fuel buf) buf (length front + length t + 2)
              (as_size (htoi (c_str x))) body)
          cut
        ∙ ap (λ x. chunk_at (chunks_loop fuel buf) buf (length front + length t + 2) x body) h.1)

-- A chunk that is in the buffer with its end of line is appended.
chunk_at-append :
    (next : ℕ → Bytes → Chunks) (front data_ rest body : Bytes)
    → 0 < length data_
    → length (front ++ (data_ ++ (crlf ++ rest))) < 2 ^ 64
    → chunk_at next (front ++ (data_ ++ (crlf ++ rest))) (length front) (length data_) body
      ≡ next (length front + length data_ + 2) (body ++ data_)
unfolding chunk_at
chunk_at-append next front data_ rest body some_data bound =
    let buf = front ++ (data_ ++ (crlf ++ rest)) in
    let long = length-append front (data_ ++ (crlf ++ rest)) in
    let long' = length-append data_ (crlf ++ rest) in
    let filled : (length data_ == 0) ≡ false = ground arith in
    let behind : (length front + length data_ + 2) % 2 ^ 64 ≡ length front + length data_ + 2 =
      omega (arith, long, long', bound) in
    let present : ltb (length buf) (length front + length data_ + 2) ≡ false =
      ground (arith, long, long') in
    let whole : ltb (length buf) (length front + length data_) ≡ false =
      ground (arith, long, long') in
    let data' : take (length data_) (drop (length front) buf) ≡ data_ =
      ap (take (length data_)) (drop-append front (data_ ++ (crlf ++ rest)))
      ∙ take-append data_ (crlf ++ rest) in
    rw (filled, behind, present, whole, data') refl

-- The bytes that end a body: the line of the last chunk, and what follows.
abbrev pub ending : Bytes → Bytes → Bytes
ending last tail = last ++ (crlf ++ tail)

-- A chunk is read and the loop goes on behind it.
chunks_loop-chunk :
    (fuel : ℕ) (front t data_ more body : Bytes)
    → IsSize t (length data_)
    → 0 < length data_
    → length (front ++ (t ++ (crlf ++ (data_ ++ (crlf ++ more))))) < 2 ^ 64
    → chunks_loop
        (suc fuel)
        (front ++ (t ++ (crlf ++ (data_ ++ (crlf ++ more)))))
        (length front)
        body
      ≡ chunks_loop fuel
          ((front ++ (t ++ (crlf ++ (data_ ++ crlf)))) ++ more)
          (length (front ++ (t ++ (crlf ++ (data_ ++ crlf)))))
          (body ++ data_)
chunks_loop-chunk fuel front t data_ more body size some_data bound =
    let buf = front ++ (t ++ (crlf ++ (data_ ++ (crlf ++ more)))) in
    let front2 = front ++ (t ++ crlf) in
    let front3 = front ++ (t ++ (crlf ++ (data_ ++ crlf))) in
    let at2 : length front2 ≡ length front + length t + 2 =
      omega (arith, length-append front (t ++ crlf), length-append t crlf) in
    let at3 : length front3 ≡ length front + length t + 2 + length data_ + 2 = omega (
      arith,
      length-append front (t ++ (crlf ++ (data_ ++ crlf))),
      length-append t (crlf ++ (data_ ++ crlf)),
      length-append data_ crlf,
    ) in
    let cut2 : buf ≡ front2 ++ (data_ ++ (crlf ++ more)) = simp append_assoc in
    let cut3 : buf ≡ front3 ++ more = simp append_assoc in
    chunks_loop-line fuel front t (data_ ++ (crlf ++ more)) body (length data_) size
    ∙ ap₂ (λ b p. chunk_at (chunks_loop fuel buf) b p (length data_) body) cut2 (sym at2)
    ∙ chunk_at-append (chunks_loop fuel buf) front2 data_ more body some_data
        (subst (λ b. length b < 2 ^ 64) cut2 bound)
    ∙ ap₂ (λ b p. chunks_loop fuel b p (body ++ data_)) cut3 (omega (arith, at2, at3))

-- The loop over a body that is in the buffer as a whole: it ends behind the body with the bytes
-- of all chunks. The fuel is more than the number of chunks.
pub chunks_loop_lem :
    (fuel : ℕ) (chunks : List (Bytes × Bytes)) (front last tail body : Bytes)
    → length chunks < fuel
    → All IsChunk chunks
    → IsSize last 0
    → length (front ++ (chunk_text chunks ++ ending last tail)) + 2 < 2 ^ 64
    → chunks_loop fuel (front ++ (chunk_text chunks ++ ending last tail)) (length front) body
      ≡ all_chunks
          (length front + length (chunk_text chunks) + length last + 4)
          (body ++ chunk_data chunks)
unfolding chunk_at
chunks_loop_lem zero chunks front last tail body enough each size bound = absurd (omega arith)
chunks_loop_lem (suc fuel) [] front last tail body enough each size bound =
    chunks_loop-line fuel front last tail body 0 size
    ∙ ap₂ all_chunks
        (omega (arith, length-append front (ending last tail), length-append last (crlf ++ tail)))
        (sym (append-nil body))
chunks_loop_lem (suc fuel) (chunk ∷ chunks) front last tail body enough each size bound =
    let t = chunk.0 in
    let more = chunk_text chunks ++ ending last tail in
    let front3 = front ++ (t ++ (crlf ++ (chunk.1 ++ crlf))) in
    let cut : front ++ (chunk_text (chunk ∷ chunks) ++ ending last tail)
        ≡ front ++ (t ++ (crlf ++ (chunk.1 ++ (crlf ++ more)))) =
      simp append_assoc in
    let cut3 : front ++ (chunk_text (chunk ∷ chunks) ++ ending last tail) ≡ front3 ++ more =
      simp append_assoc in
    let at3 = length-append front3 (chunk_text chunks) in
    let at0 = length-append front (chunk_text (chunk ∷ chunks)) in
    let same : front ++ chunk_text (chunk ∷ chunks) ≡ front3 ++ chunk_text chunks =
      simp append_assoc in
    let ends : length front3 + length (chunk_text chunks)
        ≡ length front + length (chunk_text (chunk ∷ chunks)) =
      sym at3 ∙ ap length (sym same) ∙ at0 in
    ap (λ b. chunks_loop (suc fuel) b (length front) body) cut
    ∙ chunks_loop-chunk fuel front t chunk.1 more body each.0.0 each.0.1
        (subst (λ b. length b < 2 ^ 64) cut (omega (arith, bound)))
    ∙ chunks_loop_lem fuel chunks front3 last tail (body ++ chunk.1) (omega arith) each.1 size
        (subst (λ b. length b + 2 < 2 ^ 64) cut3 bound)
    ∙ ap₂ all_chunks (omega (arith, ends)) (append_assoc body chunk.1 (chunk_data chunks))
