-- ===== src/Handshake/Utf8.antt =====
-- The platform's TextEncoder and TextDecoder, which handshake/src/wire/serializer.ts and
-- handshake/src/closeFrame.ts call. A string is the list of its code points (a lone surrogate is one).
pub mod RoundTrip
use rivalis.Common.{
  ℕ, zero, suc, ◌+◌, ◌*◌, ◌/◌, ◌%◌, ◌-◌, ◌<◌, ◌≤◌, Bool, true, false, ◌&&◌, List, [], ◌∷◌, ◌++◌,
  ltb, leb, eqb, if◌then◌else◌, ◌⊎◌,
}

abbrev pub Text : Type 0
Text = List ℕ

abbrev pub is_surrogate : ℕ → Bool
is_surrogate c = leb 0xd800 c && leb c 0xdfff

-- A Unicode scalar value.
abbrev pub IsScalar : ℕ → Type 0
IsScalar c = ((c < 0xd800) ⊎ (0xdfff < c)) × (c ≤ 0x10ffff)

abbrev pub replacement : ℕ
replacement = 0xfffd

abbrev pub byte_order_mark : ℕ
byte_order_mark = 0xfeff

-- A lone surrogate is encoded as U+FFFD.
unfoldable pub encode_char : ℕ → List ℕ
encode_char c =
    if ltb c 0x80
    then c ∷ []
    else if ltb c 0x800
    then (0xc0 + c / 64) ∷ (0x80 + c % 64) ∷ []
    else if is_surrogate c
    then 0xef ∷ 0xbf ∷ 0xbd ∷ []
    else if ltb c 0x10000
    then (0xe0 + c / 4096) ∷ (0x80 + c / 64 % 64) ∷ (0x80 + c % 64) ∷ []
    else (0xf0 + c / 262144) ∷ (0x80 + c / 4096 % 64) ∷ (0x80 + c / 64 % 64) ∷ (0x80 + c % 64) ∷ []

unfoldable pub encode : Text → List ℕ
encode [] = []
encode (c ∷ cs) = encode_char c ++ encode cs

-- The decoder's state: bytes still needed, bits gathered, and the range of the next byte.
pub record Decoder : Type 0 where
  pub needed : ℕ
  pub point : ℕ
  pub lower : ℕ
  pub upper : ℕ

abbrev pub ready : Decoder
ready = record { needed = 0; point = 0; lower = 0x80; upper = 0xbf }

abbrev pub want : ℕ → ℕ → ℕ → ℕ → Text × Decoder
want n p lo hi = ([], record { needed = n; point = p; lower = lo; upper = hi })

unfoldable pub start : ℕ → Text × Decoder
start b =
    if ltb b 0x80
    then (b ∷ [], ready)
    else if ltb b 0xc2
    then (replacement ∷ [], ready)
    else if ltb b 0xe0
    then want 1 (b - 0xc0) 0x80 0xbf
    else if ltb b 0xf0
    then want 2 (b - 0xe0) (if eqb b 0xe0 then 0xa0 else 0x80) (if eqb b 0xed then 0x9f else 0xbf)
    else if ltb b 0xf5
    then want 3 (b - 0xf0) (if eqb b 0xf0 then 0x90 else 0x80) (if eqb b 0xf4 then 0x8f else 0xbf)
    else (replacement ∷ [], ready)

-- A byte out of range ends the sequence with U+FFFD and is read again as a first byte.
unfoldable pub step : Decoder → ℕ → Text × Decoder
unfolding start
step d b =
    if eqb d.needed 0
    then start b
    else if leb d.lower b && leb b d.upper
    then (let p = d.point * 64 + (b - 0x80) in
        if eqb d.needed 1 then (p ∷ [], ready) else want (d.needed - 1) p 0x80 0xbf)
    else (replacement ∷ (start b).0, (start b).1)

unfoldable pub decode_loop : Decoder → List ℕ → Text
decode_loop d [] = if eqb d.needed 0 then [] else replacement ∷ []
decode_loop d (b ∷ bs) = (step d b).0 ++ decode_loop (step d b).1 bs

-- `ignoreBOM` is false by default: a leading U+FEFF is taken off.
abbrev pub strip_bom : Text → Text
strip_bom [] = []
strip_bom (c ∷ cs) = if eqb c byte_order_mark then cs else c ∷ cs

unfoldable pub decode : List ℕ → Text
unfolding decode_loop
decode bytes = strip_bom (decode_loop ready bytes)

-- `String.length` counts UTF-16 code units.
unfoldable pub utf16_length : Text → ℕ
utf16_length [] = 0
utf16_length (c ∷ cs) = (if ltb c 0x10000 then 1 else 2) + utf16_length cs
