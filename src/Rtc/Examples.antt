-- ===== src/Rtc/Examples.antt =====
-- A frame of three bytes goes through the chunker and the reassembler.
use rivalis.Common.{
  ℕ, ◌*◌, ◌<◌, ◌≤◌, ◌≡◌, refl, false, List, [], ◌∷◌, none, some, All, length, arith,
}
use rivalis.Common.Result.{ok, err}
use rivalis.Handshake.Examples.{js}
use rivalis.Rtc.Chunker.{chunk_data_bytes, total_chunks, payloads, chunk_frame, too_large}
use rivalis.Rtc.Chunker.Size.{IsChunkMessage, chunk_frame-fits}
use rivalis.Rtc.Reassembler.{Reassembler}
use rivalis.Rtc.Reassembler.Feed.{idle}
use rivalis.Rtc.Reassembler.InOrder.{receive_all, receive-payloads}

abbrev waiting : Reassembler
waiting = record {
  active_seq = some 4;
  total_chunks = 2;
  received = 1;
  chunks = some (9 ∷ []) ∷ none ∷ [];
  timer = false;
  partial_timeout_ms = 5_000;
}

small : total_chunks (1 ∷ 2 ∷ 3 ∷ []) ≤ 255
unfolding total_chunks
small = omega arith

receive-payloads_example :
    receive_all
      (payloads 5
        (total_chunks (1 ∷ 2 ∷ 3 ∷ []))
        (1 ∷ 2 ∷ 3 ∷ [])
        0
        (total_chunks (1 ∷ 2 ∷ 3 ∷ [])))
      waiting
    ≡ (idle 5_000, (1 ∷ 2 ∷ 3 ∷ []) ∷ [])
receive-payloads_example =
    receive-payloads 5 (1 ∷ 2 ∷ 3 ∷ []) waiting (omega arith) (omega arith) small refl

chunk_frame-fits_example :
    (length {A = ℕ} (1 ∷ 2 ∷ 3 ∷ []) ≤ 255 * chunk_data_bytes
      → (cs : List (List ℕ)) × (chunk_frame js (1 ∷ 2 ∷ 3 ∷ []) 5 ≡ ok cs)
        × All (IsChunkMessage js) cs
        × (length cs ≡ total_chunks (1 ∷ 2 ∷ 3 ∷ [])))
    × (255 * chunk_data_bytes < length {A = ℕ} (1 ∷ 2 ∷ 3 ∷ [])
        → chunk_frame js (1 ∷ 2 ∷ 3 ∷ []) 5 ≡ err (too_large (total_chunks (1 ∷ 2 ∷ 3 ∷ []))))
chunk_frame-fits_example = chunk_frame-fits js (1 ∷ 2 ∷ 3 ∷ []) 5
