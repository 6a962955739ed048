-- ===== src/Rtc/Chunker/Size.antt =====
-- node/src/peer/RtcFrameChunker.ts: the sizes and prefixes of chunk messages.
use rivalis.Common.{
  ℕ, zero, suc, ◌+◌, ◌*◌, ◌≤◌, ◌<◌, ◌≡◌, refl, ap, ◌∙◌, true, false, List, [], ◌∷◌, ◌++◌, some, ltb,
  length, drop, arith, length-append, length-take, All,
}
use rivalis.Common.Result.{ok, err}
use rivalis.Handshake.Utf8
use rivalis.Handshake.Writer.Refines.{leb128}
use rivalis.Handshake.Value.{Coercions}
use rivalis.Handshake.Message
use rivalis.Handshake.Message.RoundTrip.{frame, encode-frame}
use rivalis.Rtc.Chunker.{
  chunk_control_topic, rtc_max_frame_bytes, chunk_data_bytes, too_large, total_chunks,
  chunk_payload, payloads, encode_all, chunk_frame, chunk_frame_prefix, is_chunk_frame, starts_with,
}

-- The bytes of the topic field: key, length, and the 15 bytes of the topic.
abbrev topic_bytes : List ℕ
topic_bytes =
    0x0a ∷ 0x0f ∷ 0x5f ∷ 0x5f ∷ 0x72 ∷ 0x69 ∷ 0x76 ∷ 0x61 ∷ 0x6c ∷ 0x69 ∷ 0x73 ∷ 0x3a ∷ 0x63 ∷ 0x68
    ∷ 0x75 ∷ 0x6e ∷ 0x6b ∷ []

frame_lem :
    (payload : List ℕ)
    → frame chunk_control_topic payload
      ≡ topic_bytes ++ (0x12 ∷ (leb128 9 (length payload) ++ payload))
unfolding frame leb128 Utf8.encode Utf8.encode_char
frame_lem payload = refl

topic_length : length (Utf8.encode chunk_control_topic) ≡ 15
unfolding Utf8.encode Utf8.encode_char
topic_length = refl

leb128_three : (v : ℕ) → v < 2_097_152 → length (leb128 9 v) ≤ 3
unfolding leb128
leb128_three v h = ground arith

encoded_lem :
    (js : Coercions) (payload : List ℕ)
    → length payload ≤ 16_356
    → Message.encode js chunk_control_topic payload
      ≡ ok (topic_bytes ++ (0x12 ∷ (leb128 9 (length payload) ++ payload)))
encoded_lem js payload h =
    encode-frame js chunk_control_topic payload (omega (arith, topic_length))
    ∙ ap ok (frame_lem payload)

prefix_lem : (js : Coercions) → chunk_frame_prefix js ≡ some topic_bytes
unfolding chunk_frame_prefix
prefix_lem js = rw (encoded_lem js [] (omega arith))

abbrev pub IsChunkMessage : Coercions → List ℕ → Type 0
IsChunkMessage js c = (length c ≤ rtc_max_frame_bytes) × (is_chunk_frame js c ≡ true)

detected : (js : Coercions) (rest : List ℕ) → is_chunk_frame js (topic_bytes ++ rest) ≡ true
unfolding is_chunk_frame starts_with
detected js rest = rw (prefix_lem js, is_chunk_frame) (ground arith)

message-IsChunkMessage :
    (js : Coercions) (payload : List ℕ)
    → length payload ≤ 16_356
    → IsChunkMessage js (topic_bytes ++ (0x12 ∷ (leb128 9 (length payload) ++ payload)))
message-IsChunkMessage js payload h = (
  ground (
    arith,
    length-append (leb128 9 (length payload)) payload,
    leb128_three (length payload) (omega arith),
  ),
  detected js (0x12 ∷ (leb128 9 (length payload) ++ payload)),
)

encode_all-fits :
    (js : Coercions) (ps : List (List ℕ))
    → All (λ p. length p ≤ 16_356) ps
    → (cs : List (List ℕ)) × (encode_all js ps ≡ ok cs)
      × All (IsChunkMessage js) cs
      × (length cs ≡ length ps)
unfolding encode_all
encode_all-fits js [] h = ([], refl, tt, refl)
encode_all-fits js (p ∷ ps) h =
    let (cs, e, a, n) = encode_all-fits js ps h.1 in
    let c = topic_bytes ++ (0x12 ∷ (leb128 9 (length p) ++ p)) in
    (c ∷ cs, rw (encoded_lem js p h.0, e), (message-IsChunkMessage js p h.0, a), ap suc n)

payloads-fit :
    (seq total : ℕ) (frame : List ℕ) (i n : ℕ)
    → All (λ p. length p ≤ 16_356) (payloads seq total frame i n)
      × (length (payloads seq total frame i n) ≡ n)
unfolding payloads chunk_payload
payloads-fit seq total frame i zero = (tt, refl)
payloads-fit seq total frame i (suc n) =
    let (a, e) = payloads-fit seq total frame (i + 1) n in
    ((omega (arith, length-take chunk_data_bytes (drop (i * chunk_data_bytes) frame)), a), ap suc e)

-- A frame of at most 255 times 16,352 bytes is split, into as many messages as its length asks for,
-- each of at most 16 KiB and with the prefix by which the receiver knows it. A longer one is refused.
pub chunk_frame-fits :
    (js : Coercions) (frame : List ℕ) (seq : ℕ)
    → (length frame ≤ 255 * chunk_data_bytes
        → (cs : List (List ℕ)) × (chunk_frame js frame seq ≡ ok cs)
          × All (IsChunkMessage js) cs
          × (length cs ≡ total_chunks frame))
      × (255 * chunk_data_bytes < length frame
          → chunk_frame js frame seq ≡ err (too_large (total_chunks frame)))
unfolding chunk_frame total_chunks
chunk_frame-fits js frame seq = (
  λ h.
      let total = total_chunks frame in
      let (a, n) = payloads-fit seq total frame 0 total in
      let (cs, e, b, k) = encode_all-fits js (payloads seq total frame 0 total) a in
      let t : ltb 255 total ≡ false = ground arith in (cs, rw t e, b, k ∙ n),
  λ h. let t : ltb 255 (total_chunks frame) ≡ true = ground arith in rw t,
)
