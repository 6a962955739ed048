-- ===== src/Rtc/Reassembler/InOrder.antt =====
-- node/src/peer/RtcFrameChunker.ts: chunks that arrive in order.
use rivalis.Common.{
  ℕ, zero, suc, ◌+◌, ◌-◌, ◌*◌, ◌≤◌, ◌<◌, ◌≡◌, refl, sym, ap, ◌∙◌, subst, Bool, false, List, [], ◌∷◌,
  ◌++◌, Option, none, some, ltb, length, if◌then◌else◌, arith, append_assoc, append-nil,
  length-append, take_all,
}
use rivalis.Rtc.Chunker.{
  Chunk, slice_at, chunk_data_bytes, total_chunks, chunk_payload, payloads, decode_chunk_payload,
}
use rivalis.Rtc.Reassembler.{Reassembler, is_active, concat, feed}
use rivalis.Rtc.Reassembler.Feed.{
  joined, joined_lem, concat-append, mid, idle, parsed, feed-last, feed-more, feed-first,
}

abbrev pub complete : Option (List ℕ) → List (List ℕ) → List (List ℕ)
complete none frames = frames
complete (some frame) frames = frame ∷ frames

-- What the reassembler makes of chunk payloads, and the frames that they complete. A payload that
-- does not parse is dropped.
unfoldable pub receive_all : List (List ℕ) → Reassembler → Reassembler × List (List ℕ)
receive_all [] r = (r, [])
receive_all (p ∷ ps) r = elim (decode_chunk_payload p) [
  | none ↦ receive_all ps r
  | some c ↦
      let (r', frame) = feed c r in
      let (r'', frames) = receive_all ps r' in (r'', complete frame frames)
]

receive-step :
    (p : List ℕ) (ps : List (List ℕ)) (c : Chunk) (r r' r'' : Reassembler) (o : Option (List ℕ))
    (frames : List (List ℕ))
    → decode_chunk_payload p ≡ some c
    → feed c r ≡ (r', o)
    → receive_all ps r' ≡ (r'', frames)
    → receive_all (p ∷ ps) r ≡ (r'', complete o frames)
unfolding receive_all
receive-step p ps c r r' r'' o frames d f t = rw (d, receive_all, f, t)

receive-rest :
    (seq total i n : ℕ) (frame : List ℕ) (got : List (Option (List ℕ))) (timer : Bool) (timeout : ℕ)
    → length got ≡ i
    → i + suc n ≡ total
    → seq < 65_536
    → total < 256
    → receive_all (payloads seq total frame i (suc n)) (mid seq total got (suc n) timer timeout)
      ≡ (idle timeout, (concat got ++ joined chunk_data_bytes frame i (suc n)) ∷ [])
unfolding payloads joined
receive-rest seq total i zero frame got timer timeout p t h k =
    let x = slice_at chunk_data_bytes frame i in
    let c : Chunk = record { seq = seq; total = total; index = i; contents = x } in
    let r = mid seq total got 1 timer timeout in
    let f = feed-last seq total i x got timer timeout p t in
    rw (append-nil x) (
      receive-step (chunk_payload seq total frame i) [] c r (idle timeout) (idle timeout)
        (some (concat got ++ x)) [] (parsed seq total i frame h k (omega arith)) f
        (unfold receive_all in refl))
receive-rest seq total i (suc n) frame got timer timeout p t h k =
    let x = slice_at chunk_data_bytes frame i in
    let c : Chunk = record { seq = seq; total = total; index = i; contents = x } in
    let r = mid seq total got (suc (suc n)) timer timeout in
    let got' = got ++ some x ∷ [] in
    let r' = mid seq total got' (suc n) timer timeout in
    let f = feed-more seq total i n x got timer timeout p t in
    let e =
      ap (λ ys. ys ++ joined chunk_data_bytes frame (i + 1) (suc n)) (concat-append got x)
      ∙ append_assoc (concat got) x (joined chunk_data_bytes frame (i + 1) (suc n)) in
    let rest =
      receive-rest seq total (i + 1) n frame got' timer timeout
        (omega (arith, length-append got (some x ∷ []))) (omega arith) h k in
    rw (← e) (
      receive-step (chunk_payload seq total frame i) (payloads seq total frame (i + 1) (suc n)) c r
        r' (idle timeout) none ((concat got' ++ joined chunk_data_bytes frame (i + 1) (suc n)) ∷ [])
        (parsed seq total i frame h k (omega arith)) f rest)

receive-first :
    (p : List ℕ) (ps : List (List ℕ)) (c : Chunk) (r r' : Reassembler)
    → decode_chunk_payload p ≡ some c
    → feed c r ≡ feed c r'
    → receive_all (p ∷ ps) r ≡ receive_all (p ∷ ps) r'
unfolding receive_all
receive-first p ps c r r' d e = rw (d, receive_all, e)

receive-message :
    (seq total n : ℕ) (frame : List ℕ) (r : Reassembler)
    → seq < 65_536
    → total ≡ suc n
    → total < 256
    → is_active r.active_seq seq ≡ false
    → receive_all (payloads seq total frame 0 (suc n)) r
      ≡ (idle r.partial_timeout_ms, joined chunk_data_bytes frame 0 (suc n) ∷ [])
unfolding payloads concat
receive-message seq total n frame r h t k a =
    let c : Chunk = record {
      seq = seq;
      total = total;
      index = 0;
      contents = slice_at chunk_data_bytes frame 0;
    } in
    let armed = if ltb 1 total then ltb 0 r.partial_timeout_ms else false in
    let rest =
      receive-rest seq total 0 n frame [] armed r.partial_timeout_ms refl (omega arith) h k in
    let e : feed c r ≡ feed c (mid seq total [] (suc n) armed r.partial_timeout_ms) =
      subst (λ j. feed c r ≡ feed c (mid seq total [] j armed r.partial_timeout_ms)) t
        (feed-first c r a) in
    receive-first (chunk_payload seq total frame 0) (payloads seq total frame (0 + 1) n) c r
      (mid seq total [] (suc n) armed r.partial_timeout_ms)
      (parsed seq total 0 frame h k (omega arith)) e
    ∙ rest

-- The payloads of a frame of 1 to 255 chunks, under a 16-bit sequence number and fed in order to a reassembler that is idle or busy with
-- another message, complete exactly that frame, and leave it idle with its timer off.
pub receive-payloads :
    (seq : ℕ) (frame : List ℕ) (r : Reassembler)
    → seq < 65_536
    → 0 < length frame
    → total_chunks frame ≤ 255
    → is_active r.active_seq seq ≡ false
    → receive_all (payloads seq (total_chunks frame) frame 0 (total_chunks frame)) r
      ≡ (idle r.partial_timeout_ms, frame ∷ [])
unfolding total_chunks
receive-payloads seq frame r h pos k a =
    let total = total_chunks frame in
    let e : total ≡ suc (total - 1) = omega arith in
    let j : joined chunk_data_bytes frame 0 (suc (total - 1)) ≡ frame =
      joined_lem chunk_data_bytes frame 0 (suc (total - 1))
      ∙ take_all (suc (total - 1) * chunk_data_bytes) frame (omega arith) in
    subst
      (λ n. receive_all (payloads seq total frame 0 n) r ≡ (idle r.partial_timeout_ms, frame ∷ []))
      (sym e)
      (subst
        (λ b.
          receive_all (payloads seq total frame 0 (suc (total - 1))) r
          ≡ (idle r.partial_timeout_ms, b ∷ []))
        j (receive-message seq total (total - 1) frame r h e (omega arith) a))
