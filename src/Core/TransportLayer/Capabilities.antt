-- ===== src/Core/TransportLayer/Capabilities.antt =====
-- core/src/TLayer.ts: the merged capabilities of transports, in any order of registration.
use rivalis.Common.{ℕ, ◌≡◌, refl, ap, Bool, true, false, Option, none, some, ◌&&◌, arith}
use rivalis.Core.TransportLayer.{
  Layer, TransportCapability, merge, min_limit, register_capabilities,
}

and_swap : (p a b : Bool) → ((p && a) && b) ≡ ((p && b) && a)
and_swap true true true = refl
and_swap true true false = refl
and_swap true false true = refl
and_swap true false false = refl
and_swap false a b = refl

and_comm : (a b : Bool) → (a && b) ≡ (b && a)
and_comm a b = and_swap true a b

min_limit_swap : (p a b : Option ℕ) → min_limit (min_limit p a) b ≡ min_limit (min_limit p b) a
min_limit_swap p a b = ground arith

merge_swap :
    (c : Option TransportCapability) (a b : TransportCapability)
    → merge (some (merge c a)) b ≡ merge (some (merge c b)) a
merge_swap none a b = rw (
  and_comm a.ordered b.ordered,
  and_comm a.reliable b.reliable,
  min_limit_swap none a.max_frame_bytes b.max_frame_bytes,
)
merge_swap (some p) a b = rw (
  and_swap p.ordered a.ordered b.ordered,
  and_swap p.reliable a.reliable b.reliable,
  min_limit_swap p.max_frame_bytes a.max_frame_bytes b.max_frame_bytes,
)

-- Two transports can register in either order, before or after any others.
register_capabilities_comm :
    {E : Type 0} (a b : TransportCapability) (l : Layer E)
    → register_capabilities b (register_capabilities a l)
      ≡ register_capabilities a (register_capabilities b l)
unfolding register_capabilities
register_capabilities_comm a b l =
    ap (λ c. record l { capabilities = some c }) (merge_swap l.capabilities a b)
