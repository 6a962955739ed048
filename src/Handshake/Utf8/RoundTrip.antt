-- ===== src/Handshake/Utf8/RoundTrip.antt =====
-- What the decoder reads back of what the encoder wrote.
use rivalis.Common.{
  ℕ, suc, ◌+◌, ◌*◌, ◌/◌, ◌%◌, ◌-◌, ◌<◌, ◌≤◌, ◌≡◌, refl, false, List, [], ◌∷◌, ◌++◌, All, eqb,
  if◌then◌else◌, arith, append_assoc, append-nil, ap, All-append,
}
use rivalis.Handshake.Utf8.{
  Text, IsScalar, byte_order_mark, encode_char, encode, ready, want, step, decode_loop, decode,
  strip_bom,
}

abbrev pub IsByte : ℕ → Type 0
IsByte b = b < 256

pub encode_char-IsByte : (c : ℕ) → c ≤ 0x10ffff → All IsByte (encode_char c)
unfolding encode_char
encode_char-IsByte c h = ground arith

-- Every string encodes to bytes.
pub encode-IsByte : (s : Text) → All (λ c. c ≤ 0x10ffff) s → All IsByte (encode s)
unfolding encode
encode-IsByte [] h = tt
encode-IsByte (c ∷ cs) h =
    All-append IsByte (encode_char c) (encode cs) (encode_char-IsByte c h.0) (encode-IsByte cs h.1)

start_one : (b : ℕ) → b < 0x80 → step ready b ≡ (b ∷ [], ready)
unfolding step
start_one b h = ground arith

start_two : (b : ℕ) → 0xc2 ≤ b → b < 0xe0 → step ready b ≡ want 1 (b - 0xc0) 0x80 0xbf
unfolding step
start_two b h k = ground arith

start_three :
    (b : ℕ)
    → 0xe0 ≤ b
    → b < 0xf0
    → step ready b
      ≡ want 2 (b - 0xe0) (if eqb b 0xe0 then 0xa0 else 0x80) (if eqb b 0xed then 0x9f else 0xbf)
unfolding step
start_three b h k = ground arith

start_four :
    (b : ℕ)
    → 0xf0 ≤ b
    → b < 0xf5
    → step ready b
      ≡ want 3 (b - 0xf0) (if eqb b 0xf0 then 0x90 else 0x80) (if eqb b 0xf4 then 0x8f else 0xbf)
unfolding step
start_four b h k = ground arith

inner :
    (n p lo hi b : ℕ)
    → lo ≤ b
    → b ≤ hi
    → step (want (suc (suc n)) p lo hi).1 b ≡ want (suc n) (p * 64 + (b - 0x80)) 0x80 0xbf
unfolding step
inner n p lo hi b h k = ground arith

last :
    (p lo hi b : ℕ)
    → lo ≤ b
    → b ≤ hi
    → step (want 1 p lo hi).1 b ≡ ((p * 64 + (b - 0x80)) ∷ [], ready)
unfolding step
last p lo hi b h k = ground arith

read_one :
    (c : ℕ) (rest : List ℕ) → c < 0x80 → decode_loop ready (c ∷ rest) ≡ c ∷ decode_loop ready rest
unfolding decode_loop
read_one c rest h = rw (start_one c h)

read_two :
    (c : ℕ) (rest : List ℕ)
    → 0x80 ≤ c
    → c < 0x800
    → decode_loop ready ((0xc0 + c / 64) ∷ (0x80 + c % 64) ∷ rest) ≡ c ∷ decode_loop ready rest
unfolding decode_loop
read_two c rest h k =
    rw
      (
        start_two (0xc0 + c / 64) (omega arith) (omega arith),
        last (0xc0 + c / 64 - 0xc0) 0x80 0xbf (0x80 + c % 64) (omega arith) (omega arith),
      )
      (ap (λ (t : ℕ). t ∷ decode_loop ready rest) (omega arith))

read_three :
    (c : ℕ) (rest : List ℕ)
    → IsScalar c
    → 0x800 ≤ c
    → c < 0x10000
    → decode_loop ready ((0xe0 + c / 4096) ∷ (0x80 + c / 64 % 64) ∷ (0x80 + c % 64) ∷ rest)
      ≡ c ∷ decode_loop ready rest
unfolding decode_loop
read_three c rest s h k =
    rw
      (
        start_three (0xe0 + c / 4096) (omega arith) (omega arith),
        inner 0 (0xe0 + c / 4096 - 0xe0) (if eqb (0xe0 + c / 4096) 0xe0 then 0xa0 else 0x80)
            (if eqb (0xe0 + c / 4096) 0xed then 0x9f else 0xbf) (0x80 + c / 64 % 64) (ground arith)
            (ground arith),
        last ((0xe0 + c / 4096 - 0xe0) * 64 + (0x80 + c / 64 % 64 - 0x80)) 0x80 0xbf (0x80 + c % 64)
            (omega arith) (omega arith),
      )
      (ap (λ (t : ℕ). t ∷ decode_loop ready rest) (omega arith))

read_four :
    (c : ℕ) (rest : List ℕ)
    → 0x10000 ≤ c
    → c ≤ 0x10ffff
    → decode_loop ready (
        (0xf0 + c / 262144)
        ∷ (0x80 + c / 4096 % 64)
        ∷ (0x80 + c / 64 % 64)
        ∷ (0x80 + c % 64)
        ∷ rest)
      ≡ c ∷ decode_loop ready rest
unfolding decode_loop
read_four c rest h k =
    rw
      (
        start_four (0xf0 + c / 262144) (omega arith) (omega arith),
        inner 1 (0xf0 + c / 262144 - 0xf0) (if eqb (0xf0 + c / 262144) 0xf0 then 0x90 else 0x80)
            (if eqb (0xf0 + c / 262144) 0xf4 then 0x8f else 0xbf) (0x80 + c / 4096 % 64)
            (ground arith) (ground arith),
        inner 0 ((0xf0 + c / 262144 - 0xf0) * 64 + (0x80 + c / 4096 % 64 - 0x80)) 0x80 0xbf
            (0x80 + c / 64 % 64) (omega arith) (omega arith),
        last
            (((0xf0 + c / 262144 - 0xf0) * 64 + (0x80 + c / 4096 % 64 - 0x80)) * 64
              + (0x80 + c / 64 % 64 - 0x80))
            0x80 0xbf (0x80 + c % 64) (omega arith) (omega arith),
      )
      (ap (λ (t : ℕ). t ∷ decode_loop ready rest) (omega arith))

decode_loop-encode_char :
    (c : ℕ) (rest : List ℕ)
    → IsScalar c
    → decode_loop ready (encode_char c ++ rest) ≡ c ∷ decode_loop ready rest
unfolding encode_char
decode_loop-encode_char c rest h =
    ground (arith, read_one c rest, read_two c rest, read_three c rest h, read_four c rest)

pub decode_loop-encode :
    (s : Text) (rest : List ℕ)
    → All IsScalar s
    → decode_loop ready (encode s ++ rest) ≡ s ++ decode_loop ready rest
unfolding encode
decode_loop-encode [] rest h = refl
decode_loop-encode (c ∷ cs) rest h = rw (
  append_assoc (encode_char c) (encode cs) rest,
  decode_loop-encode_char c (encode cs ++ rest) h.0,
  decode_loop-encode cs rest h.1,
)

-- The decoder reads back every well-formed string, less a byte order mark in front.
pub decode-encode : (s : Text) → All IsScalar s → decode (encode s) ≡ strip_bom s
unfolding decode
decode-encode s h =
    rw (← append-nil (encode s), decode_loop-encode s [] h) (unfold decode_loop in rw append-nil)

abbrev pub NoMark : Text → Type 0
NoMark [] = Unit {0}
NoMark (c ∷ cs) = eqb c byte_order_mark ≡ false

pub strip_bom_id : (s : Text) → NoMark s → strip_bom s ≡ s
strip_bom_id [] h = refl
strip_bom_id (c ∷ cs) h = rw h
