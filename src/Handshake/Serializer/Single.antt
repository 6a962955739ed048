-- ===== src/Handshake/Serializer/Single.antt =====
-- A schema with one message type, as of the realtime message and of the close frame.
use rivalis.Common.{◌+◌, ◌^◌, ◌<◌, ◌≡◌, sym, subst, List, [], length, arith, ap, String, string_key}
use rivalis.Common.Map
use rivalis.Common.Result.{ok}
use rivalis.Handshake.Value.{FieldDef}
use rivalis.Handshake.Serializer.{fields_of, define}
use rivalis.Handshake.Serializer.Emit.{IsNarrow}
use rivalis.Handshake.Serializer.RoundTrip.{AreDistinct, Distinct}

module _ (name : String) (fields : List FieldDef) where
  pub single_known : fields_of (define [] name fields) name ≡ ok fields
  unfolding fields_of define Map.set Map.lookup
  single_known = rw (Map.beq_refl name, fields_of)

  single_only :
      (other : String) (found : List FieldDef)
      → fields_of (define [] name fields) other ≡ ok found
      → found ≡ fields
  unfolding fields_of define Map.lookup Map.set
  single_only other found e = ground arith

  pub single-IsNarrow : 1 + length fields < 2 ^ 28 → IsNarrow (define [] name fields)
  single-IsNarrow h other found e = omega (arith, ap length (single_only other found e))

  pub single-AreDistinct : Distinct fields → AreDistinct (define [] name fields)
  single-AreDistinct h other found e = subst Distinct (sym (single_only other found e)) h
