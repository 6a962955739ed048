-- ===== src/Handshake/Writer/Refines.antt =====
-- handshake/src/wire/varint.ts, class Writer, beside a byte list that is appended to.
use rivalis.Common.{
  ℕ, zero, suc, ◌+◌, ◌*◌, ◌/◌, ◌%◌, ◌^◌, ◌≤◌, ◌<◌, ◌≡◌, refl, bit_or, List, [], ◌∷◌, ◌++◌, length,
  set, take, replicate, leb, if◌then◌else◌, arith, length-set, length-replicate, length-take,
  take-set_end, append_assoc, append-nil, ◌∙◌,
}
use rivalis.Common.Bits.{set_top_bit}
use rivalis.Handshake.Writer.{
  Writer, empty, double_until, blit, grow, store, varint_loop, varint, len_bytes, done,
}

-- The unsigned LEB128 form of a number below 128 ^ (k + 1).
unfoldable pub leb128 : ℕ → ℕ → List ℕ
leb128 zero v = v ∷ []
leb128 (suc k) v =
    let rest = leb128 k (v / 128) in if leb 128 v then (v % 128 + 128) ∷ rest else v ∷ []

pub length-leb128 : (k v : ℕ) → (0 < length (leb128 k v)) × (length (leb128 k v) ≤ k + 1)
unfolding leb128
length-leb128 zero v = omega arith
length-leb128 (suc k) v = ground (arith, length-leb128 k (v / 128))

abbrev pub IsValid : Writer → Type 0
IsValid w = (w.len ≤ length w.buf) × (0 < length w.buf)

length-blit : (buf : List ℕ) (at : ℕ) (bs : List ℕ) → length (blit buf at bs) ≡ length buf
unfolding blit
length-blit buf at [] = refl
length-blit buf at (b ∷ bs) = length-blit (set buf at b) (suc at) bs ∙ length-set buf at b

take-blit :
    (buf : List ℕ) (at : ℕ) (bs : List ℕ)
    → at + length bs ≤ length buf
    → take (at + length bs) (blit buf at bs) ≡ take at buf ++ bs
unfolding blit
take-blit buf at [] h = let e : at + 0 ≡ at = omega arith in rw (e, append-nil)
take-blit buf at (b ∷ bs) h =
    let e : at + suc (length bs) ≡ suc at + length bs = omega arith in
    rw e (
      take-blit (set buf at b) (suc at) bs (omega (arith, length-set buf at b))
      ∙ rw (take-set_end buf at b (omega arith)) (append_assoc (take at buf) (b ∷ []) bs))

double_until_enough :
    (fuel cap need : ℕ) → 0 < cap → need ≤ cap + fuel → need ≤ double_until fuel cap need
unfolding double_until
double_until_enough zero cap need p h = omega arith
double_until_enough (suc fuel) cap need p h =
    ground (arith, double_until_enough fuel (cap * 2) need)

double_until-ge : (fuel cap need : ℕ) → cap ≤ double_until fuel cap need
unfolding double_until
double_until-ge zero cap need = omega arith
double_until-ge (suc fuel) cap need = ground (arith, double_until-ge fuel (cap * 2) need)

-- The buffer that `grow` allocates.
copy_lem :
    (room len : ℕ) (buf : List ℕ)
    → len ≤ length buf
    → len ≤ room
    → take len (blit (replicate room 0) 0 (take len buf)) ≡ take len buf
copy_lem room len buf h k =
    let e : length (take len buf) ≡ len = omega (arith, length-take len buf) in
    let p : 0 + length (take len buf) ≡ len = omega arith in
    rw p at (
      take-blit (replicate room 0) 0 (take len buf)
        (omega (arith, length-replicate {A = ℕ} room 0)))

pub grow_lem :
    (w : Writer) (extra : ℕ)
    → IsValid w
    → IsValid (grow w extra)
      × (w.len + extra ≤ length (grow w extra).buf)
      × ((grow w extra).len ≡ w.len)
      × (done (grow w extra) ≡ done w)
unfolding grow done
grow_lem w extra v = ground (
  arith,
  double_until_enough (w.len + extra) (length w.buf) (w.len + extra),
  length-blit (replicate (double_until (w.len + extra) (length w.buf) (w.len + extra)) 0) 0
      (take w.len w.buf),
  length-replicate {A = ℕ} (double_until (w.len + extra) (length w.buf) (w.len + extra)) 0,
  copy_lem (double_until (w.len + extra) (length w.buf) (w.len + extra)) w.len w.buf v.0,
)

done-store : (w : Writer) (b : ℕ) → w.len < length w.buf → done (store w b) ≡ done w ++ b ∷ []
unfolding done
done-store w b h = take-set_end w.buf w.len b h

store_last :
    (w : Writer) (value : ℕ)
    → value < 128
    → w.len < length w.buf
    → done (store w (value % 256)) ≡ done w ++ value ∷ []
store_last w value h k = let e : value % 256 ≡ value = omega arith in rw e (done-store w value k)

store_more :
    (w : Writer) (value : ℕ)
    → w.len < length w.buf
    → done (store w (bit_or (value % 0x80) 0x80)) ≡ done w ++ (value % 128 + 128) ∷ []
store_more w value k =
    rw (set_top_bit (value % 128) (omega arith)) (done-store w (value % 128 + 128) k)

-- With room for `k + 1` bytes the loop appends the encoding.
varint_loop_lem :
    (k fuel : ℕ) (w : Writer) (value : ℕ)
    → value < 128 ^ suc k
    → value ≤ fuel
    → w.len + suc k ≤ length w.buf
    → (done (varint_loop fuel w value) ≡ done w ++ leb128 k value)
      × ((varint_loop fuel w value).len ≤ length (varint_loop fuel w value).buf)
      × (length (varint_loop fuel w value).buf ≡ length w.buf)
unfolding varint_loop leb128
varint_loop_lem zero zero w value h f r =
    ground (arith, store_last w value, length-set w.buf w.len (value % 256))
varint_loop_lem zero (suc fuel) w value h f r =
    ground (arith, store_last w value, length-set w.buf w.len (value % 256))
varint_loop_lem (suc k) zero w value h f r =
    ground (arith, store_last w value, length-set w.buf w.len (value % 256))
varint_loop_lem (suc k) (suc fuel) w value h f r = ground (
  arith,
  store_last w value,
  store_more w value,
  length-set w.buf w.len (value % 256),
  length-set w.buf w.len (bit_or (value % 128) 128),
  append_assoc (done w) ((value % 128 + 128) ∷ []) (leb128 k (value / 128)),
  varint_loop_lem k fuel (store w (bit_or (value % 128) 128)) (value / 128),
)

-- In a valid writer a number below 2^70 fits the ten bytes that `varint` makes room for: the bytes
-- written before stay, its LEB128 form follows, and the writer stays valid.
pub varint_lem :
    (w : Writer) (value : ℕ)
    → IsValid w
    → value < 2 ^ 70
    → (done (varint w value) ≡ done w ++ leb128 9 value) × IsValid (varint w value)
unfolding varint
varint_lem w value v h = ground (arith, grow_lem w 10 v, varint_loop_lem 9 value (grow w 10) value)

abbrev append_bytes : Writer → List ℕ → Writer
append_bytes w bytes = record { buf = blit w.buf w.len bytes; len = w.len + length bytes }

append_bytes_lem :
    (w : Writer) (bytes : List ℕ)
    → IsValid w
    → w.len + length bytes ≤ length w.buf
    → (done (append_bytes w bytes) ≡ done w ++ bytes) × IsValid (append_bytes w bytes)
unfolding done
append_bytes_lem w bytes v h =
    let e = length-blit w.buf w.len bytes in (take-blit w.buf w.len bytes h, omega (arith, e))

-- In a valid writer a block of less than 2^70 bytes is its length as a varint and then the bytes, wherever the buffer has to grow.
pub len_bytes_lem :
    (w : Writer) (bytes : List ℕ)
    → IsValid w
    → length bytes < 2 ^ 70
    → (done (len_bytes w bytes) ≡ done w ++ (leb128 9 (length bytes) ++ bytes))
      × IsValid (len_bytes w bytes)
unfolding len_bytes
len_bytes_lem w bytes v h = ground (
  arith,
  varint_lem w (length bytes) v,
  grow_lem (varint w (length bytes)) (length bytes),
  append_bytes_lem (grow (varint w (length bytes)) (length bytes)) bytes,
  append_assoc (done w) (leb128 9 (length bytes)) bytes,
)

pub empty_lem : (done empty ≡ []) × IsValid empty
unfolding done empty
empty_lem = (refl, omega arith)
