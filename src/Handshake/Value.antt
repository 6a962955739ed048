-- ===== src/Handshake/Value.antt =====
-- JavaScript values as the serializer sees them, and handshake/src/wire/types.ts: field definitions.
pub mod Laws
use rivalis.Common.{
  ℕ, ◌%◌, ◌^◌, ◌-◌, ◌<◌, ◌≡◌, Bool, true, false, List, [], ◌∷◌, Option, none, some, String,
  string_key, ◌==◌, if◌then◌else◌,
}
use rivalis.Common.Int.{ℤ, pos, negsuc}
use rivalis.Common.Map.{Map}
use rivalis.Handshake.Utf8.{Text}

-- A number is an integer; fractions, infinities and NaN are not modelled.
mutual
  pub data Value : Type 0 where
    undefined null : Value
    bool : Bool → Value
    num : ℤ → Value
    text : Text → Value
    bytes : List ℕ → Value
    array : Values → Value
    object : Fields → Value

  pub data Values : Type 0 where
    nil : Values
    cons : Value → Values → Values

  pub data Fields : Type 0 where
    end : Fields
    field : String → Value → Fields → Fields

-- The own property `key` of an object, in insertion order.
unfoldable pub get : String → Fields → Value
get k end = undefined
get k (field j v fs) = if j == k then v else get k fs

unfoldable pub put : String → Value → Fields → Fields
put k v end = field k v end
put k v (field j w fs) = let rest = put k v fs in if j == k then field j v fs else field j w rest

-- `Object.prototype.hasOwnProperty.call(obj, key)`.
unfoldable pub has_own : String → Fields → Bool
has_own k end = false
has_own k (field j v fs) = if j == k then true else has_own k fs

-- `message[key]`.
unfoldable pub property : Value → String → Value
unfolding get
property (object fs) k = get k fs
property _ k = undefined

abbrev pub is_nullish : Value → Bool
is_nullish undefined = true
is_nullish null = true
is_nullish _ = false

abbrev pub truthy : Value → Bool
truthy undefined = false
truthy null = false
truthy (bool b) = b
truthy (num n) = elim n [ pos m ↦ (elim m [ ℕ.zero ↦ false | ℕ.suc k ↦ true ]) | negsuc m ↦ true ]
truthy (text s) = elim s [ [] ↦ false | c ∷ cs ↦ true ]
truthy _ = true

unfoldable pub push : Values → Value → Values
push nil v = cons v nil
push (cons w ws) v = cons w (push ws v)

-- ToUint32 of an integer.
abbrev pub wrap32 : ℤ → ℕ
wrap32 (pos n) = n % 2 ^ 32
wrap32 (negsuc n) = 2 ^ 32 - 1 - n % 2 ^ 32

-- The runtime's `String(value)`, and `value >>> 0`, which is also the bit pattern of `value | 0`.
pub record Coercions : Type 0 where
  pub to_text : Value → Text
  pub to_text-text : (s : Text) → to_text (text s) ≡ s
  pub to_uint32 : Value → ℕ
  pub to_uint32-num : (n : ℤ) → to_uint32 (num n) ≡ wrap32 n
  pub to_uint32-lt : (v : Value) → to_uint32 v < 2 ^ 32

pub data FieldType : Type 0 where
  string uint32 int32 bool bytes : FieldType
  message : String → FieldType

pub data Rule : Type 0 where
  optional required repeated : Rule

-- `default` is declared by the source and read by nothing.
pub record FieldDef : Type 0 where
  pub key : String
  pub type : FieldType
  pub rule : Rule

abbrev pub Schema : Type 0
Schema = Map String (List FieldDef)
