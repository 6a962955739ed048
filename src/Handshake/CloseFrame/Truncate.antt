-- ===== src/Handshake/CloseFrame/Truncate.antt =====
-- handshake/src/closeFrame.ts: the cut of a reason.
use rivalis.Common.{
  ℕ, zero, suc, ◌+◌, ◌-◌, ◌/◌, ◌≤◌, ◌<◌, ◌≡◌, refl, List, [], ◌∷◌, ◌++◌, length, take, leb, ltb,
  if◌then◌else◌, arith, All, length-append, append_assoc, take-append_length, ap, ◌∙◌, inl, inr,
  Bool-cases,
}
use rivalis.Common.Bits.{top_bit, top_three, top_four, top_five}
use rivalis.Handshake.Utf8.{Text, IsScalar, encode_char, encode, strip_bom}
use rivalis.Handshake.Utf8.RoundTrip.{decode-encode}
use rivalis.Handshake.CloseFrame.{seq_len, walk, truncate_utf8}

-- The longest prefix whose encoding has at most `budget` bytes.
unfoldable pub fit : Text → ℕ → Text
fit [] budget = []
fit (c ∷ cs) budget =
    let n = length (encode_char c) in
    let more = fit cs (budget - n) in if leb n budget then c ∷ more else []

seq_one : (b : ℕ) → b < 0x80 → seq_len b ≡ 1
unfolding seq_len
seq_one b h = ground (arith, top_bit b)

seq_two : (b : ℕ) → 0xc0 ≤ b → b < 0xe0 → seq_len b ≡ 2
unfolding seq_len
seq_two b h k = ground (arith, top_bit b, top_three b)

seq_three : (b : ℕ) → 0xe0 ≤ b → b < 0xf0 → seq_len b ≡ 3
unfolding seq_len
seq_three b h k = ground (arith, top_bit b, top_three b, top_four b)

seq_four : (b : ℕ) → 0xf0 ≤ b → b < 0xf8 → seq_len b ≡ 4
unfolding seq_len
seq_four b h k = ground (arith, top_bit b, top_three b, top_four b, top_five b)

-- One round of the walk takes one whole character.
walk_char :
    (fuel : ℕ) (c : ℕ) (rest : List ℕ) (i limit : ℕ)
    → IsScalar c
    → i < limit
    → walk (suc fuel) (encode_char c ++ rest) i limit ≡ (
        if ltb limit (i + length (encode_char c))
        then i
        else walk fuel rest (i + length (encode_char c)) limit)
unfolding walk encode_char
walk_char fuel c rest i limit h k = ground (
  arith,
  seq_one c,
  seq_two (0xc0 + c / 64),
  seq_three (0xe0 + c / 4096),
  seq_four (0xf0 + c / 262144),
)

char_nonempty : (c : ℕ) → 0 < length (encode_char c)
unfolding encode_char
char_nonempty c = ground arith

fit_none : (s : Text) → fit s 0 ≡ []
unfolding fit
fit_none [] = refl
fit_none (c ∷ cs) = ground (arith, char_nonempty c)

walk_stop : (fuel : ℕ) (rest : List ℕ) (i limit : ℕ) → limit ≤ i → walk (suc fuel) rest i limit ≡ i
unfolding walk
walk_stop fuel [] i limit h = refl
walk_stop fuel (b ∷ rest) i limit h = ground arith

walk-fit :
    (fuel : ℕ) (s : Text) (i limit : ℕ)
    → All IsScalar s
    → limit ≤ i + fuel
    → walk fuel (encode s) i limit ≡ i + length (encode (fit s (limit - i)))
unfolding encode fit
walk-fit zero s i limit h k =
    let e : limit - i ≡ 0 = omega arith in rw (e, fit_none s) (unfold walk in omega arith)
walk-fit (suc fuel) [] i limit h k = unfold walk in omega arith
walk-fit (suc fuel) (c ∷ cs) i limit h k =
    let n = length (encode_char c) in
    let e : limit - (i + n) ≡ limit - i - n = omega arith in
    ground (
      arith,
      walk_char fuel c (encode cs) i limit,
      walk_stop fuel (encode_char c ++ encode cs) i limit,
      walk-fit fuel cs (i + n) limit,
      ap (λ (t : ℕ). length (encode (fit cs t))) e,
      length-append (encode_char c) (encode (fit cs (limit - i - n))),
      char_nonempty c,
    )

pub fit-prefix : (s : Text) (budget : ℕ) → (r : Text) × (s ≡ fit s budget ++ r)
unfolding fit
fit-prefix [] budget = ([], refl)
fit-prefix (c ∷ cs) budget = elim (Bool-cases (leb (length (encode_char c)) budget)) [
  | inl t ↦
      let (r, e) = fit-prefix cs (budget - length (encode_char c)) in
      (r, rw t (ap (λ (u : Text). c ∷ u) e))
  | inr t ↦ (c ∷ cs, rw t)
]

pub fit-length : (s : Text) (budget : ℕ) → length (encode (fit s budget)) ≤ budget
unfolding fit encode
fit-length [] budget = omega arith
fit-length (c ∷ cs) budget = ground (
  arith,
  fit-length cs (budget - length (encode_char c)),
  length-append (encode_char c) (encode (fit cs (budget - length (encode_char c)))),
)

encode-append : (s t : Text) → encode (s ++ t) ≡ encode s ++ encode t
unfolding encode
encode-append [] t = refl
encode-append (c ∷ cs) t =
    rw (encode-append cs t, append_assoc (encode_char c) (encode cs) (encode t))

All-fit : (s : Text) (budget : ℕ) → All IsScalar s → All IsScalar (fit s budget)
unfolding fit
All-fit [] budget h = tt
All-fit (c ∷ cs) budget h = ground (arith, All-fit cs (budget - length (encode_char c)) h.1)

take-fit :
    (s : Text) (budget : ℕ)
    → take (length (encode (fit s budget))) (encode s) ≡ encode (fit s budget)
take-fit s budget =
    let (r, e) = fit-prefix s budget in
    let e' = ap encode e ∙ encode-append (fit s budget) r in
    ap (take (length (encode (fit s budget)))) e'
    ∙ take-append_length (encode (fit s budget)) (encode r)

-- A well-formed string that fits is kept; a longer one is cut to its longest prefix of whole
-- characters within the limit, and loses a leading byte order mark.
pub truncate_utf8-fit :
    (s : Text) (limit : ℕ)
    → All IsScalar s
    → truncate_utf8 s limit ≡ (if leb (length (encode s)) limit then s else strip_bom (fit s limit))
unfolding truncate_utf8
truncate_utf8-fit s limit h =
    let e = walk-fit limit s 0 limit h (omega arith) in
    let z : limit - 0 ≡ limit = omega arith in
    let z' = ap (λ (t : ℕ). length (encode (fit s t))) z in
    let e' : walk limit (encode s) 0 limit ≡ length (encode (fit s limit)) = omega (arith, e, z') in
    rw (e', take-fit s limit, decode-encode (fit s limit) (All-fit s limit h))

strip_bom-le : (s : Text) → length (encode (strip_bom s)) ≤ length (encode s)
unfolding encode
strip_bom-le [] = omega arith
strip_bom-le (c ∷ cs) = ground (arith, length-append (encode_char c) (encode cs))

-- The cut of a well-formed string has at most `limit` bytes.
pub truncate_utf8-bound :
    (s : Text) (limit : ℕ) → All IsScalar s → length (encode (truncate_utf8 s limit)) ≤ limit
truncate_utf8-bound s limit h =
    ground (arith, truncate_utf8-fit s limit h, strip_bom-le (fit s limit), fit-length s limit)

All-strip_bom : (s : Text) → All IsScalar s → All IsScalar (strip_bom s)
All-strip_bom [] h = tt
All-strip_bom (c ∷ cs) h = ground arith

pub All-truncate : (s : Text) (limit : ℕ) → All IsScalar s → All IsScalar (truncate_utf8 s limit)
All-truncate s limit h = elim (Bool-cases (leb (length (encode s)) limit)) [
  | inl t ↦ rw (truncate_utf8-fit s limit h, t) h
  | inr t ↦ rw (truncate_utf8-fit s limit h, t) (All-strip_bom (fit s limit) (All-fit s limit h))
]
