-- ===== src/Tests/Http.antt =====
-- Include/http/hpp on small messages.
use hzrobot.Prelude.{◌+◌, List, [], ◌∷◌, ◌++◌, Bytes, codes, c_str, length, ◌≡◌, refl, arith}
use hzrobot.Http.Chunks.{chunk_text, chunk_data, ending, chunks_loop_lem}
use hzrobot.Http.Client.{all_chunks, chunks_loop, as_size, htoi, htoi_loop}
use hzrobot.Http.Message.{get_status_code_desc}

status : get_status_code_desc 404 ≡ codes "Not Found"
unfolding get_status_code_desc
status = refl

htoi-hex : htoi (codes "0x1F") ≡ 31
unfolding htoi htoi_loop
htoi-hex = refl

-- Every letter counts as a digit.
htoi-letters : htoi (codes "z") ≡ 35
unfolding htoi htoi_loop
htoi-letters = refl

abbrev pieces : List (Bytes × Bytes)
pieces = (codes "3", codes "abc") ∷ (codes "2", codes "de") ∷ []

size_three : as_size (htoi (c_str (codes "3"))) ≡ 3
unfolding as_size htoi htoi_loop c_str
size_three = refl

size_two : as_size (htoi (c_str (codes "2"))) ≡ 2
unfolding as_size htoi htoi_loop c_str
size_two = refl

size_zero : as_size (htoi (c_str (codes "0"))) ≡ 0
unfolding as_size htoi htoi_loop c_str
size_zero = refl

chunks_loop_lem_example :
    chunks_loop 3 (codes "HD" ++ (chunk_text pieces ++ ending (codes "0") (codes "\r\n"))) 2 []
    ≡ all_chunks
        (length (codes "HD") + length (chunk_text pieces) + length (codes "0") + 4)
        ([] ++ chunk_data pieces)
chunks_loop_lem_example =
    chunks_loop_lem 3 pieces (codes "HD") (codes "0") (codes "\r\n") [] (omega arith)
      (
        ((((ground arith), tt), size_three), omega arith),
        (((((ground arith), tt), size_two), omega arith), tt),
      )
      (((ground arith), tt), size_zero) (omega arith)
