-- ===== src/Rtc/Chunker.antt =====
-- node/src/peer/RtcFrameChunker.ts: a large frame is split into chunk messages. The copy in
-- browser/src/peer is the same up to the reassembler's timeout.
pub mod Size
use rivalis.Common.{
  ℕ, zero, suc, ◌+◌, ◌*◌, ◌/◌, ◌%◌, Bool, true, false, List, [], ◌∷◌, Option, none, some, ltb, eqb,
  length, take, drop, if◌then◌else◌,
}
use rivalis.Common.Result.{Result, ok, err, stuck, ◌>>=◌}
use rivalis.Handshake.Utf8.{Text}
use rivalis.Handshake.Reader.{WireError}
use rivalis.Handshake.Value.{Coercions}
use rivalis.Handshake.Message

-- "__rivalis:chunk".
abbrev pub chunk_control_topic : Text
chunk_control_topic =
    0x5f ∷ 0x5f ∷ 0x72 ∷ 0x69 ∷ 0x76 ∷ 0x61 ∷ 0x6c ∷ 0x69 ∷ 0x73 ∷ 0x3a ∷ 0x63 ∷ 0x68 ∷ 0x75 ∷ 0x6e
    ∷ 0x6b ∷ []

abbrev pub rtc_max_frame_bytes : ℕ
rtc_max_frame_bytes = 16 * 1024

abbrev pub chunk_data_bytes : ℕ
chunk_data_bytes = 16_352

pub data ChunkError : Type 0 where
  too_large : ℕ → ChunkError
  wire : WireError → ChunkError

abbrev pub lift {ℓ} : {A : Type ℓ} → Result WireError A → Result ChunkError A
lift stuck = stuck
lift (err e) = err (wire e)
lift (ok a) = ok a

-- `Math.ceil(frame.byteLength / CHUNK_DATA_BYTES)`.
unfoldable pub total_chunks : List ℕ → ℕ
total_chunks frame = (length frame + 16_351) / chunk_data_bytes

-- The slice from `start` to `end`.
abbrev pub slice_at : ℕ → List ℕ → ℕ → List ℕ
slice_at size frame i = take size (drop (i * size) frame)

unfoldable pub chunk_payload : ℕ → ℕ → List ℕ → ℕ → List ℕ
chunk_payload seq total frame i =
    (seq / 256 % 256) ∷ (seq % 256) ∷ (total % 256) ∷ (i % 256) ∷ slice_at chunk_data_bytes frame i

-- The loop from `i` on, for `n` rounds.
unfoldable pub payloads : ℕ → ℕ → List ℕ → ℕ → ℕ → List (List ℕ)
unfolding chunk_payload
payloads seq total frame i zero = []
payloads seq total frame i (suc n) =
    chunk_payload seq total frame i ∷ payloads seq total frame (i + 1) n

unfoldable pub encode_all : Coercions → List (List ℕ) → Result ChunkError (List (List ℕ))
encode_all js [] = ok []
encode_all js (p ∷ ps) =
    lift (Message.encode js chunk_control_topic p) >>= λ c. encode_all js ps >>= λ cs. ok (c ∷ cs)

unfoldable pub chunk_frame : Coercions → List ℕ → ℕ → Result ChunkError (List (List ℕ))
unfolding payloads encode_all total_chunks
chunk_frame js frame seq =
    let total = total_chunks frame in
    if ltb 255 total
    then err (too_large total)
    else encode_all js (payloads seq total frame 0 total)

pub record Chunk : Type 0 where
  pub seq : ℕ
  pub total : ℕ
  pub index : ℕ
  pub contents : List ℕ

-- `(payload[0] << 8) | payload[1]` of two bytes.
unfoldable pub decode_chunk_payload : List ℕ → Option Chunk
decode_chunk_payload (hi ∷ lo ∷ total ∷ index ∷ contents) =
    some (record { seq = hi * 256 + lo; total = total; index = index; contents = contents })
decode_chunk_payload _ = none

-- `buf[i] === prefix[i]` for the bytes of the prefix.
unfoldable pub starts_with : List ℕ → List ℕ → Bool
starts_with [] buf = true
starts_with (p ∷ ps) [] = false
starts_with (p ∷ ps) (b ∷ buf) = let rest = starts_with ps buf in if eqb b p then rest else false

abbrev prefix_of : Result WireError (List ℕ) → Option (List ℕ)
prefix_of (ok sample) = some (take 17 sample)
prefix_of _ = none

unfoldable pub chunk_frame_prefix : Coercions → Option (List ℕ)
chunk_frame_prefix js = prefix_of (Message.encode js chunk_control_topic [])

unfoldable pub is_chunk_frame : Coercions → List ℕ → Bool
unfolding starts_with
is_chunk_frame js buf = elim (chunk_frame_prefix js) [
  | none ↦ false
  | some prefix ↦ if ltb (length buf) 17 then false else starts_with prefix buf
]
