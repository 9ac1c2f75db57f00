-- ===== src/Boost/Handlers/Content.antt =====
-- What the client of HttpBoost.cpp has read at the end of a response.
use hzrobot.Prelude.{
  ℕ, suc, Option, List, [], ◌∷◌, ◌++◌, append-nil, append_assoc, Bytes, length, ◌≡◌, ◌∙◌, ap, sym,
}
use hzrobot.Boost.Handlers.{
  HttpBoost, reads_headers, reads_content, Completion, completes, ends, skip_headers,
  handle_read_headers, handle_read_content, handle, complete, run,
}

-- What each of the pieces adds to: the buffer with all pieces up to it.
abbrev pub grown : Bytes → List Bytes → Bytes
grown buffer [] = []
grown buffer (piece ∷ pieces) = (buffer ++ piece) ++ grown (buffer ++ piece) pieces

abbrev pub arrivals : List Bytes → List Completion
arrivals [] = ends ∷ []
arrivals (piece ∷ pieces) = completes piece ∷ arrivals pieces

module _ (extract : Bytes → Option (ℕ × Bytes)) where
  run-content :
      (pieces : List Bytes) (client : HttpBoost)
      → (run extract (arrivals pieces) reads_content client).1.response_data
        ≡ client.response_data ++ grown client.response pieces
  unfolding run complete handle handle_read_content
  run-content [] client = sym (append-nil client.response_data)
  run-content (piece ∷ pieces) client =
      let buffer = client.response ++ piece in
      run-content pieces
        (record client { response = buffer; response_data = client.response_data ++ buffer })
      ∙ append_assoc client.response_data buffer (grown buffer pieces)

  -- When the headers end in the buffer before a first part of the content, and the rest arrives in
  -- pieces before the end of the stream, the client has read the first part, and then for each
  -- piece the first part again with all pieces up to that one.
  pub run-grown :
      (text body : Bytes) (pieces : List Bytes) (client : HttpBoost)
      → skip_headers (suc (length (client.response ++ text))) (client.response ++ text) ≡ body
      → (run extract (completes text ∷ arrivals pieces) reads_headers client).1.response_data
        ≡ client.response_data ++ (body ++ grown body pieces)
  unfolding run complete handle handle_read_headers
  run-grown text body pieces client rest =
      let left = skip_headers (suc (length (client.response ++ text))) (client.response ++ text) in
      run-content pieces
        (record client { response = left; response_data = client.response_data ++ left })
      ∙ append_assoc client.response_data left (grown left pieces)
      ∙ ap (λ b. client.response_data ++ (b ++ grown b pieces)) rest
