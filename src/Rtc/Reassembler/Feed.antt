-- ===== src/Rtc/Reassembler/Feed.antt =====
-- One chunk at a time: what `feed` does to a message in flight.
use rivalis.Common.{
  ℕ, zero, suc, ◌+◌, ◌*◌, ◌/◌, ◌%◌, ◌<◌, ◌≡◌, refl, sym, ap, Bool, false, List, [], ◌∷◌, ◌++◌,
  Option, none, some, ltb, eqb, length, take, drop, set, get_elem?, replicate, if◌then◌else◌, arith,
  append_assoc, append-nil, length-append, take_all,
}
use rivalis.Rtc.Chunker.{Chunk, slice_at, chunk_data_bytes, chunk_payload, decode_chunk_payload}
use rivalis.Rtc.Reassembler.{
  Reassembler, reset_state, clear, begin_message, is_active, concat, place, feed,
}

-- The slices from `i` on.
unfoldable pub joined : ℕ → List ℕ → ℕ → ℕ → List ℕ
joined size frame i zero = []
joined size frame i (suc n) = slice_at size frame i ++ joined size frame (i + 1) n

take_split : (a b : ℕ) (xs : List ℕ) → take a xs ++ take b (drop a xs) ≡ take (a + b) xs
take_split zero b xs = let e : 0 + b ≡ b = omega arith in rw e
take_split (suc a) b [] =
    let e : suc a + b ≡ suc (a + b) = omega arith in rw e (take_all b [] (omega arith))
take_split (suc a) b (x ∷ xs) =
    let e : suc a + b ≡ suc (a + b) = omega arith in rw e (ap (λ ys. x ∷ ys) (take_split a b xs))

drop_nil : (b : ℕ) → drop {A = ℕ} b [] ≡ []
drop_nil zero = refl
drop_nil (suc b) = refl

drop-drop : (a b : ℕ) (xs : List ℕ) → drop b (drop a xs) ≡ drop (a + b) xs
drop-drop zero b xs = let e : 0 + b ≡ b = omega arith in rw e
drop-drop (suc a) b [] = let e : suc a + b ≡ suc (a + b) = omega arith in rw e (drop_nil b)
drop-drop (suc a) b (x ∷ xs) =
    let e : suc a + b ≡ suc (a + b) = omega arith in rw e (drop-drop a b xs)

pub joined_lem :
    (size : ℕ) (frame : List ℕ) (i n : ℕ)
    → joined size frame i n ≡ take (n * size) (drop (i * size) frame)
unfolding joined
joined_lem size frame i zero = let e : 0 * size ≡ 0 = omega arith in rw e
joined_lem size frame i (suc n) =
    let e : (i + 1) * size ≡ i * size + size = omega arith in
    let g : suc n * size ≡ size + n * size = omega arith in
    rw (joined_lem size frame (i + 1) n, e, g, ← drop-drop (i * size) size frame)
      (take_split size (n * size) (drop (i * size) frame))

get-middle :
    {A : Type 0} (got rest : List A) (a : A) → get_elem? (got ++ a ∷ rest) (length got) ≡ some a
get-middle [] rest a = refl
get-middle (x ∷ xs) rest a = get-middle xs rest a

set-middle :
    {A : Type 0} (got rest : List A) (a b : A)
    → set (got ++ a ∷ rest) (length got) b ≡ (got ++ b ∷ []) ++ rest
set-middle [] rest a b = refl
set-middle (x ∷ xs) rest a b = ap (λ ys. x ∷ ys) (set-middle xs rest a b)

pub concat-append :
    (xs : List (Option (List ℕ))) (b : List ℕ) → concat (xs ++ some b ∷ []) ≡ concat xs ++ b
unfolding concat
concat-append [] b = append-nil b
concat-append (none ∷ xs) b = concat-append xs b
concat-append (some x ∷ xs) b = rw (concat-append xs b) (sym (append_assoc x (concat xs) b))

-- A message in flight, whose first chunks are there.
abbrev pub mid : ℕ → ℕ → List (Option (List ℕ)) → ℕ → Bool → ℕ → Reassembler
mid seq total got missing timer timeout = record {
  active_seq = some seq;
  total_chunks = total;
  received = length got;
  chunks = got ++ replicate missing none;
  timer = timer;
  partial_timeout_ms = timeout;
}

abbrev pub idle : ℕ → Reassembler
idle timeout = record {
  active_seq = none;
  total_chunks = 0;
  received = 0;
  chunks = [];
  timer = false;
  partial_timeout_ms = timeout;
}

pub parsed :
    (seq total i : ℕ) (frame : List ℕ)
    → seq < 65_536
    → total < 256
    → i < 256
    → decode_chunk_payload (chunk_payload seq total frame i)
      ≡ some (record {
        seq = seq;
        total = total;
        index = i;
        contents = slice_at chunk_data_bytes frame i;
      })
unfolding decode_chunk_payload chunk_payload
parsed seq total i frame h k l =
    let e : seq / 256 % 256 * 256 + seq % 256 ≡ seq = omega arith in
    let g : total % 256 ≡ total = omega arith in let q : i % 256 ≡ i = omega arith in rw (e, g, q)

-- One chunk more, of the message in flight.
feed-mid :
    (seq total missing : ℕ) (contents : List ℕ) (got : List (Option (List ℕ))) (timer : Bool)
    (timeout : ℕ)
    → length got + suc missing ≡ total
    → feed
        (record { seq = seq; total = total; index = length got; contents = contents })
        (mid seq total got (suc missing) timer timeout)
      ≡ (if eqb missing 0
          then (idle timeout, some (concat got ++ contents))
          else (mid seq total (got ++ some contents ∷ []) missing timer timeout, none))
unfolding feed begin_message place clear reset_state
feed-mid seq total missing contents got timer timeout t = ground (
  arith,
  get-middle got (replicate missing none) none,
  set-middle got (replicate missing none) none (some contents),
  concat-append got contents,
  length-append got (some contents ∷ []),
  append-nil (got ++ some contents ∷ []),
)

pub feed-last :
    (seq total i : ℕ) (contents : List ℕ) (got : List (Option (List ℕ))) (timer : Bool)
    (timeout : ℕ)
    → length got ≡ i
    → i + 1 ≡ total
    → feed
        (record { seq = seq; total = total; index = i; contents = contents })
        (mid seq total got 1 timer timeout)
      ≡ (idle timeout, some (concat got ++ contents))
feed-last seq total i contents got timer timeout p t =
    rw (← p) (feed-mid seq total 0 contents got timer timeout (omega arith))

pub feed-more :
    (seq total i n : ℕ) (contents : List ℕ) (got : List (Option (List ℕ))) (timer : Bool)
    (timeout : ℕ)
    → length got ≡ i
    → i + suc (suc n) ≡ total
    → feed
        (record { seq = seq; total = total; index = i; contents = contents })
        (mid seq total got (suc (suc n)) timer timeout)
      ≡ (mid seq total (got ++ some contents ∷ []) (suc n) timer timeout, none)
feed-more seq total i n contents got timer timeout p t =
    let z : eqb (suc n) 0 ≡ false = ground arith in
    rw (← p) (rw z at (feed-mid seq total (suc n) contents got timer timeout (omega arith)))

-- The first chunk of a message starts it, whatever was in flight.
pub feed-first :
    (c : Chunk) (r : Reassembler)
    → is_active r.active_seq c.seq ≡ false
    → feed c r
      ≡ feed c (
          mid c.seq c.total [] c.total
            (if ltb 1 c.total then ltb 0 r.partial_timeout_ms else false)
            r.partial_timeout_ms)
unfolding feed begin_message
feed-first c r h = ground arith
