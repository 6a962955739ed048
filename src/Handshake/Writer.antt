-- ===== src/Handshake/Writer.antt =====
-- handshake/src/wire/varint.ts, class Writer: a growable byte buffer. `buf` has its whole capacity,
-- and `len` bytes of it are written. A store past the capacity is lost, as for a typed array.
pub mod Refines
use rivalis.Common.{
  ℕ, zero, suc, ◌+◌, ◌*◌, ◌/◌, ◌%◌, ◌≤◌, bit_or, List, [], ◌∷◌, ◌++◌, length, set, take, replicate,
  ltb, leb, if◌then◌else◌,
}

pub record Writer : Type 0 where
  pub buf : List ℕ
  pub len : ℕ

unfoldable pub empty : Writer
empty = record { buf = replicate 64 0; len = 0 }

-- `while (cap < need) cap *= 2`. The capacity is positive, so `need` rounds are enough.
unfoldable pub double_until : ℕ → ℕ → ℕ → ℕ
double_until zero cap need = cap
double_until (suc fuel) cap need =
    let rest = double_until fuel (cap * 2) need in if ltb cap need then rest else cap

-- `next.set(bytes, at)`.
unfoldable pub blit : List ℕ → ℕ → List ℕ → List ℕ
blit buf at [] = buf
blit buf at (b ∷ bs) = blit (set buf at b) (suc at) bs

unfoldable pub grow : Writer → ℕ → Writer
unfolding double_until blit
grow w extra =
    let need = w.len + extra in
    if leb need (length w.buf) then w else record w {
      buf = blit (replicate (double_until need (length w.buf) need) 0) 0 (take w.len w.buf);
    }

abbrev pub store : Writer → ℕ → Writer
store w b = record { buf = set w.buf w.len b; len = suc w.len }

-- The loop of `varint`. A byte is taken off the value in each round, so `value` rounds are enough.
unfoldable pub varint_loop : ℕ → Writer → ℕ → Writer
varint_loop zero w value = store w (value % 256)
varint_loop (suc fuel) w value =
    let rest = varint_loop fuel (store w (bit_or (value % 0x80) 0x80)) (value / 0x80) in
    if leb 0x80 value then rest else store w (value % 256)

unfoldable pub varint : Writer → ℕ → Writer
unfolding grow varint_loop
varint w value = varint_loop value (grow w 10) value

unfoldable pub len_bytes : Writer → List ℕ → Writer
unfolding varint
len_bytes w bytes =
    let w' = grow (varint w (length bytes)) (length bytes) in
    record { buf = blit w'.buf w'.len bytes; len = w'.len + length bytes }

unfoldable pub done : Writer → List ℕ
done w = take w.len w.buf
