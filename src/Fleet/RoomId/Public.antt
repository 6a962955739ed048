-- ===== src/Fleet/RoomId/Public.antt =====
-- fleet/src/domain/roomId.ts: collisions of public room ids.
use rivalis.Common.{
  ℕ, ◌/◌, ◌%◌, ◌<◌, ◌≤◌, ◌≡◌, refl, ap, sym, subst, append-nil, ◌∙◌, ◌≢◌, ◌⊎◌, true, List, [], ◌∷◌,
  ◌++◌, arith, All, Bool-cases, inl, inr,
}
use rivalis.Handshake.Utf8
use rivalis.Handshake.Utf8.{Text, IsScalar, ready, decode_loop}
use rivalis.Handshake.Utf8.RoundTrip.{IsByte, encode-IsByte, decode_loop-encode}
use rivalis.Fleet.RoomId.{
  is_room_id_char, are_room_id_chars, is_valid_room_id, namespace_separator, hex_digit, encode_byte,
  encode_bytes, encode_room_id, namespace_room_id,
}

-- The characters of an id that the fleet makes public: the charset and `%`.
abbrev pub IsSafe : ℕ → Type 0
IsSafe c = (is_room_id_char c ≡ true) ⊎ (c ≡ 0x25)

ascii : (c : ℕ) → is_room_id_char c ≡ true → Utf8.encode_char c ≡ c ∷ []
unfolding Utf8.encode_char
ascii c h = ground arith

encode_chars : (s : Text) → are_room_id_chars s ≡ true → encode_bytes (Utf8.encode s) ≡ s
unfolding are_room_id_chars encode_bytes Utf8.encode
encode_chars [] h = refl
encode_chars (c ∷ cs) h =
    let t : is_room_id_char c ≡ true = ground arith in
    rw (ascii c t, t, encode_chars cs (ground arith))

-- The early return for valid ids changes nothing: encoding is always that of the UTF-8 bytes.
encode_room_id-bytes : (s : Text) → encode_room_id s ≡ encode_bytes (Utf8.encode s)
unfolding encode_room_id is_valid_room_id
encode_room_id-bytes s = elim (Bool-cases (are_room_id_chars s)) [
  | inl t ↦
      rw (encode_chars s t) (elim (Bool-cases (is_valid_room_id s)) [ inl v ↦ rw v | inr v ↦ rw v ])
  | inr f ↦ rw f
]

hex_digit-injective : (x y : ℕ) → x < 16 → y < 16 → hex_digit x ≡ hex_digit y → x ≡ y
hex_digit-injective x y a b h = ground arith

-- The first bytes of two encodings that agree are the same.
encode_byte-injective :
    (b d : ℕ) (s t : Text)
    → b < 256
    → d < 256
    → encode_byte b ++ s ≡ encode_byte d ++ t
    → (b ≡ d) × (s ≡ t)
encode_byte-injective b d s t x y h = elim (Bool-cases (is_room_id_char b)) [
  | inl p ↦ elim (Bool-cases (is_room_id_char d)) [
    | inl q ↦ let z = rw (p, q) at h in (cc, cc)
    | inr q ↦ let z = rw (p, q) at h in let e : b ≡ 0x25 = cc in absurd (ground (arith, e))
  ]
  | inr p ↦ elim (Bool-cases (is_room_id_char d)) [
    | inl q ↦ let z = rw (p, q) at h in let e : 0x25 ≡ d = cc in absurd (ground (arith, e))
    | inr q ↦
        let z = rw (p, q) at h in
        let high : hex_digit (b / 16) ≡ hex_digit (d / 16) = cc in
        let low : hex_digit (b % 16) ≡ hex_digit (d % 16) = cc in
        let e = hex_digit-injective (b / 16) (d / 16) (omega arith) (omega arith) high in
        let f = hex_digit-injective (b % 16) (d % 16) (omega arith) (omega arith) low in
        (omega arith, cc)
  ]
]

encode_byte_some : (b : ℕ) (s : Text) → encode_byte b ++ s ≢ []
encode_byte_some b s = elim (Bool-cases (is_room_id_char b)) [
  | inl p ↦ rw p (λ h. cc)
  | inr p ↦ rw p (λ h. cc)
]

encode_bytes-injective :
    (xs ys : List ℕ) → All IsByte xs → All IsByte ys → encode_bytes xs ≡ encode_bytes ys → xs ≡ ys
unfolding encode_bytes
encode_bytes-injective [] [] u v h = refl
encode_bytes-injective [] (y ∷ ys) u v h = absurd (encode_byte_some y (encode_bytes ys) (sym h))
encode_bytes-injective (x ∷ xs) [] u v h = absurd (encode_byte_some x (encode_bytes xs) h)
encode_bytes-injective (x ∷ xs) (y ∷ ys) u v h =
    let (e, t) = encode_byte-injective x y (encode_bytes xs) (encode_bytes ys) u.0 v.0 h in
    let z = encode_bytes-injective xs ys u.1 v.1 t in cc

encode-injective :
    (s t : Text) → All IsScalar s → All IsScalar t → Utf8.encode s ≡ Utf8.encode t → s ≡ t
encode-injective s t u v h =
    let a = decode_loop-encode s [] u in
    let b = decode_loop-encode t [] v in
    let e : decode_loop ready (Utf8.encode s ++ []) ≡ decode_loop ready (Utf8.encode t ++ []) =
      ap (λ (w : List ℕ). decode_loop ready (w ++ [])) h in
    let f : s ++ [] ≡ t ++ [] = (unfold decode_loop in sym a ∙ e ∙ b) in
    sym (append-nil s) ∙ f ∙ append-nil t

scalar_bound : (s : Text) → All IsScalar s → All (λ c. c ≤ 0x10ffff) s
scalar_bound [] h = tt
scalar_bound (c ∷ cs) h = (h.0.1, scalar_bound cs h.1)

bytes : (s : Text) → All IsScalar s → All IsByte (Utf8.encode s)
bytes s h = encode-IsByte s (scalar_bound s h)

hex_safe : (d : ℕ) → d < 16 → is_room_id_char (hex_digit d) ≡ true
hex_safe d h = ground arith

-- Two well-formed room ids that are made public under one base id are equal, whichever of them are
-- valid already.
pub encode_room_id-injective :
    (s t : Text) → All IsScalar s → All IsScalar t → encode_room_id s ≡ encode_room_id t → s ≡ t
encode_room_id-injective s t u v h = encode-injective s t u v (
    encode_bytes-injective (Utf8.encode s) (Utf8.encode t) (bytes s u) (bytes t v)
      (sym (encode_room_id-bytes s) ∙ h ∙ encode_room_id-bytes t))

byte-IsSafe : (b : ℕ) → b < 256 → (cs : Text) → All IsSafe cs → All IsSafe (encode_byte b ++ cs)
byte-IsSafe b h cs a = elim (Bool-cases (is_room_id_char b)) [
  | inl p ↦ rw p (inl p, a)
  | inr p ↦ rw p (
    inr refl,
    (inl (hex_safe (b / 16) (omega arith)), (inl (hex_safe (b % 16) (omega arith)), a)),
  )
]

bytes-IsSafe : (bs : List ℕ) → All IsByte bs → All IsSafe (encode_bytes bs)
unfolding encode_bytes
bytes-IsSafe [] h = tt
bytes-IsSafe (b ∷ bs) h = byte-IsSafe b h.0 (encode_bytes bs) (bytes-IsSafe bs h.1)

pub encode_room_id-IsSafe : (s : Text) → All IsScalar s → All IsSafe (encode_room_id s)
encode_room_id-IsSafe s h = rw (encode_room_id-bytes s) (bytes-IsSafe (Utf8.encode s) (bytes s h))

no_separator : (xs ys : Text) → All IsSafe (xs ++ namespace_separator ∷ ys) → ⊥
no_separator [] ys h = elim h.0 [ inl p ↦ cc | inr p ↦ absurd (omega (arith, p)) ]
no_separator (x ∷ xs) ys h = no_separator xs ys h.1

last_separator :
    (us vs xs ys : Text)
    → All IsSafe xs
    → All IsSafe ys
    → us ++ namespace_separator ∷ xs ≡ vs ++ namespace_separator ∷ ys
    → (us ≡ vs) × (xs ≡ ys)
last_separator [] [] xs ys a b h = (refl, cc)
last_separator [] (v ∷ vs) xs ys a b h =
    let e : xs ≡ vs ++ namespace_separator ∷ ys = cc in
    absurd (no_separator vs ys (subst (All IsSafe) e a))
last_separator (u ∷ us) [] xs ys a b h =
    let e : ys ≡ us ++ namespace_separator ∷ xs = cc in
    absurd (no_separator us xs (subst (All IsSafe) e b))
last_separator (u ∷ us) (v ∷ vs) xs ys a b h =
    let (e, f) = last_separator us vs xs ys a b cc in (cc, f)

-- A namespaced id has one reading, whatever characters are in the process ids: for well-formed room
-- ids it determines the process and the room id. And it is never the base id of a well-formed room id.
pub namespace-encode_room_id :
    (u v s t : Text)
    → All IsScalar s
    → All IsScalar t
    → (namespace_room_id u (encode_room_id s) ≡ namespace_room_id v (encode_room_id t)
        → (u ≡ v) × (s ≡ t))
      × (encode_room_id s ≢ namespace_room_id v (encode_room_id t))
unfolding namespace_room_id
namespace-encode_room_id u v s t a b = (
  λ h.
      let (e, f) =
        last_separator u v (encode_room_id s) (encode_room_id t) (encode_room_id-IsSafe s a)
          (encode_room_id-IsSafe t b) h in
      (e, encode_room_id-injective s t a b f),
  λ h. no_separator v (encode_room_id t) (subst (All IsSafe) h (encode_room_id-IsSafe s a)),
)
