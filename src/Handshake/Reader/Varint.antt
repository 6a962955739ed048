-- ===== src/Handshake/Reader/Varint.antt =====
-- Laws of `Reader.varint` and `Reader.take`: what they read of what `Writer` wrote, and that each
-- read takes bytes off the buffer.
use rivalis.Common.{
  ℕ, zero, suc, ◌+◌, ◌*◌, ◌/◌, ◌%◌, ◌^◌, ◌≤◌, ◌<◌, ◌≡◌, ◌≢◌, bit_and, List, [], ◌∷◌, ◌++◌, length,
  take, drop, arith, length-append, take-append_length, take-append-drop, drop-append_length, ap,
}
use rivalis.Common.Result.{ok, stuck}
use rivalis.Common.Bits.{low_bits, top_bit}
use rivalis.Handshake.Writer
use rivalis.Handshake.Writer.{Writer}
use rivalis.Handshake.Writer.Refines.{IsValid, leb128, varint_lem}
use rivalis.Handshake.Reader.{to_double, varint_loop, varint, take_bytes}
use native.Mathlib.Nat.{div-add-mod}

to_double_exact : (n : ℕ) → n < 2 ^ 53 → to_double n ≡ n
unfolding to_double
to_double_exact n h = ground arith

last_byte :
    (v acc mul count : ℕ) (rest : List ℕ)
    → v < 128
    → count < 8
    → acc + v * mul < 2 ^ 53
    → varint_loop (v ∷ rest) acc mul count ≡ ok (acc + v * mul, rest)
unfolding varint_loop
last_byte v acc mul count rest h c b =
    ground (arith, low_bits v, top_bit v, to_double_exact (acc + v * mul))

inner_byte :
    (g acc mul count : ℕ) (rest : List ℕ)
    → g < 128
    → count < 8
    → acc + g * mul < 2 ^ 53
    → varint_loop ((g + 128) ∷ rest) acc mul count
      ≡ varint_loop rest (acc + g * mul) (mul * 0x80) (count + 1)
unfolding varint_loop
inner_byte g acc mul count rest h c b =
    ground (arith, low_bits (g + 128), top_bit (g + 128), to_double_exact (acc + g * mul))

split_group : (v mul : ℕ) → v * mul ≡ v % 128 * mul + v / 128 * (mul * 0x80)
split_group v mul = omega (arith, ap (λ (t : ℕ). t * mul) (div-add-mod v 128))

-- `j + 1` bytes are enough for `v`, and `count + j + 1` stays within the reader's eight.
varint_loop-leb128 :
    (k j v acc mul count : ℕ) (rest : List ℕ)
    → j ≤ k
    → v < 128 ^ suc j
    → count + suc j ≤ 8
    → acc + v * mul < 2 ^ 53
    → varint_loop (leb128 k v ++ rest) acc mul count ≡ ok (acc + v * mul, rest)
unfolding leb128
varint_loop-leb128 zero zero v acc mul count rest hj hv hc b =
    last_byte v acc mul count rest hv (omega arith) b
varint_loop-leb128 zero (suc j) v acc mul count rest hj hv hc b = absurd (omega arith)
varint_loop-leb128 (suc k) zero v acc mul count rest hj hv hc b =
    ground (arith, last_byte v acc mul count rest)
varint_loop-leb128 (suc k) (suc j) v acc mul count rest hj hv hc b = ground (
  arith,
  last_byte v acc mul count rest,
  split_group v mul,
  inner_byte (v % 128) acc mul count (leb128 k (v / 128) ++ rest),
  varint_loop-leb128 k j (v / 128) (acc + v % 128 * mul) (mul * 0x80) (count + 1) rest,
)

pub varint-leb128 :
    (v : ℕ) (rest : List ℕ) → v < 2 ^ 53 → varint (leb128 9 v ++ rest) ≡ ok (v, rest)
unfolding varint
varint-leb128 v rest h = ground (arith, varint_loop-leb128 9 7 v 0 1 0 rest)

-- A valid writer to which a number below 2^53 is written keeps the bytes before, and what it appends the
-- reader takes back as that number, leaving what follows.
pub varint-varint :
    (w : Writer) (v : ℕ) (rest : List ℕ)
    → IsValid w
    → v < 2 ^ 53
    → (take (length (Writer.done w)) (Writer.done (Writer.varint w v)) ≡ Writer.done w)
      × (varint (drop (length (Writer.done w)) (Writer.done (Writer.varint w v)) ++ rest)
          ≡ ok (v, rest))
varint-varint w v rest valid h =
    let bytes = leb128 9 v in
    let (written, _) = varint_lem w v valid (omega arith) in
    rw written (
      take-append_length (Writer.done w) bytes,
      rw (drop-append_length (Writer.done w) bytes) (varint-leb128 v rest h),
    )

varint_loop-shorter :
    (bytes : List ℕ) (acc mul count v : ℕ) (rest : List ℕ)
    → varint_loop bytes acc mul count ≡ ok (v, rest)
    → (length rest < length bytes) × (length bytes + count ≤ length rest + 8)
unfolding varint_loop
varint_loop-shorter [] acc mul count v rest h = cc
varint_loop-shorter (b ∷ bs) acc mul count v rest h = ground (
  arith,
  varint_loop-shorter bs (to_double (acc + bit_and b 0x7f * mul)) (mul * 0x80) (count + 1) v rest,
)

-- A varint takes one to eight bytes.
pub varint-shorter :
    (bytes : List ℕ) (v : ℕ) (rest : List ℕ)
    → varint bytes ≡ ok (v, rest)
    → (length rest < length bytes) × (length bytes ≤ length rest + 8)
unfolding varint
varint-shorter bytes v rest h = ground (arith, varint_loop-shorter bytes 0 1 0 v rest)

varint_loop-ne-stuck :
    (bytes : List ℕ) (acc mul count : ℕ) → varint_loop bytes acc mul count ≢ stuck
unfolding varint_loop
varint_loop-ne-stuck [] acc mul count h = cc
varint_loop-ne-stuck (b ∷ bs) acc mul count h = ground (
  arith,
  varint_loop-ne-stuck bs (to_double (acc + bit_and b 0x7f * mul)) (mul * 0x80) (count + 1),
)

pub varint-ne-stuck : (bytes : List ℕ) → varint bytes ≢ stuck
unfolding varint
varint-ne-stuck bytes = varint_loop-ne-stuck bytes 0 1 0

pub take_bytes-append :
    (bytes rest : List ℕ) → take_bytes (length bytes) (bytes ++ rest) ≡ ok (bytes, rest)
unfolding take_bytes
take_bytes-append bytes rest =
    ground (
      arith,
      length-append bytes rest,
      take-append_length bytes rest,
      drop-append_length bytes rest,
    )

pub take_bytes-length :
    (n : ℕ) (bytes front rest : List ℕ)
    → take_bytes n bytes ≡ ok (front, rest)
    → length front + length rest ≡ length bytes
unfolding take_bytes
take_bytes-length n bytes front rest h =
    ground (arith, length-append (take n bytes) (drop n bytes), take-append-drop n bytes)

pub take_bytes-ne-stuck : (n : ℕ) (bytes : List ℕ) → take_bytes n bytes ≢ stuck
unfolding take_bytes
take_bytes-ne-stuck n bytes h = ground arith
