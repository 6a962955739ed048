-- ===== src/Rtc/Reassembler.antt =====
-- node/src/peer/RtcFrameChunker.ts, class ChunkReassembler. `active_seq` is `none` for -1; `timer`
-- says whether the eviction timer is armed.
pub mod Feed
pub mod InOrder
use rivalis.Common.{
  ℕ, zero, suc, ◌+◌, Bool, true, false, List, [], ◌∷◌, ◌++◌, Option, none, some, ltb, leb, eqb,
  length, set, get_elem?, replicate, if◌then◌else◌,
}
use rivalis.Rtc.Chunker.{Chunk}

pub record Reassembler : Type 0 where
  pub active_seq : Option ℕ
  pub total_chunks : ℕ
  pub received : ℕ
  pub chunks : List (Option (List ℕ))
  pub timer : Bool
  pub partial_timeout_ms : ℕ

unfoldable pub reset_state : Reassembler → Reassembler
reset_state r = record r { active_seq = none; total_chunks = 0; received = 0; chunks = [] }

unfoldable pub clear : Reassembler → Reassembler
unfolding reset_state
clear r = reset_state (record r { timer = false })

-- The timer's callback.
unfoldable pub expire : Reassembler → Reassembler
unfolding reset_state
expire r = if r.timer then reset_state (record r { timer = false }) else r

abbrev pub is_active : Option ℕ → ℕ → Bool
is_active none seq = false
is_active (some active) seq = eqb active seq

-- A new sequence number supersedes what was in flight.
unfoldable pub begin_message : Chunk → Reassembler → Reassembler
begin_message c r = if is_active r.active_seq c.seq then r else record r {
  active_seq = some c.seq;
  total_chunks = c.total;
  received = 0;
  chunks = replicate c.total none;
  timer = if ltb 1 c.total then ltb 0 r.partial_timeout_ms else false;
}

unfoldable pub concat : List (Option (List ℕ)) → List ℕ
concat [] = []
concat (none ∷ cs) = concat cs
concat (some b ∷ cs) = b ++ concat cs

-- The chunk has its place in `chunks`, which was free.
unfoldable pub place : Chunk → Reassembler → Reassembler × Option (List ℕ)
unfolding concat clear
place c r =
    let r' = record r {
      chunks = set r.chunks c.index (some c.contents);
      received = r.received + 1;
    } in
    if ltb r'.received r'.total_chunks then (r', none) else (clear r', some (concat r'.chunks))

abbrev pub is_free : Option (Option (List ℕ)) → Bool
is_free (some none) = true
is_free _ = false

unfoldable pub feed : Chunk → Reassembler → Reassembler × Option (List ℕ)
unfolding begin_message place
feed c r =
    let r' = begin_message c r in
    if leb r'.total_chunks c.index
    then (r', none)
    else if eqb c.total r'.total_chunks
    then (if is_free (get_elem? r'.chunks c.index) then place c r' else (r', none))
    else (r', none)
