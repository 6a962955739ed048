-- ===== src/Common/Map.antt =====
-- JavaScript's `Map`: an association list in insertion order. `set` on a key that is there keeps its
-- place, on a new key appends; `delete` then `set` moves a key to the end.
use Prim.Native.Nat.{ℕ, ◌+◌, ◌≤◌}
use mathlib.Core.Path.{◌≡◌, refl}
use mathlib.Core.Logic.{◌≢◌, inl, inr}
use mathlib.Core.Bool.{Bool, true, false}
use mathlib.Core.List.{List, [], ◌∷◌}
use mathlib.Core.Option.{Option, none, some}
use native.Mathlib.Omega.{arith}
use rivalis.Common.Tests.{Key, ◌==◌, if◌then◌else◌, is_some, Bool-cases}
use rivalis.Common.Lists.{length}

abbrev pub Map {ℓ κ} : Type ℓ → Type κ → Type (ℓ ⊔ κ)
Map K V = List (K × V)

module _ {ℓ κ} {K : Type ℓ} {V : Type κ} where
  abbrev pub size : Map K V → ℕ
  size = length

  abbrev pub keys : Map K V → List K
  keys [] = []
  keys ((k, v) ∷ m) = k ∷ keys m

  abbrev pub values : Map K V → List V
  values [] = []
  values ((k, v) ∷ m) = v ∷ values m

module _ {ℓ} {K : Type ℓ} ⦃e : Key K⦄ where
  pub beq_refl : (k : K) → (k == k) ≡ true
  beq_refl k = (e.same_iff k k).1 refl

  pub ne→beq-false : (k j : K) → k ≢ j → (k == j) ≡ false
  ne→beq-false k j h = elim (Bool-cases (k == j)) [
    | inl t ↦ absurd (h ((e.same_iff k j).0 t))
    | inr f ↦ f
  ]

module _ {ℓ κ} {K : Type ℓ} {V : Type κ} ⦃e : Key K⦄ where
  unfoldable pub lookup : K → Map K V → Option V
  lookup k [] = none
  lookup k ((j, v) ∷ m) = if j == k then some v else lookup k m

  unfoldable pub set : K → V → Map K V → Map K V
  set k v [] = (k, v) ∷ []
  set k v ((j, w) ∷ m) = let rest = set k v m in if j == k then (j, v) ∷ m else (j, w) ∷ rest

  unfoldable pub delete : K → Map K V → Map K V
  delete k [] = []
  delete k ((j, v) ∷ m) = let rest = delete k m in if j == k then rest else (j, v) ∷ rest

  abbrev pub has : K → Map K V → Bool
  has k m = is_some (lookup k m)

  pub lookup-set :
      (k j : K) (v : V) (m : Map K V)
      → lookup j (set k v m) ≡ (if k == j then some v else lookup j m)
  unfolding lookup set
  lookup-set k j v [] = refl
  lookup-set k j v ((i, w) ∷ m) =
      ground (arith, e.same_iff k j, e.same_iff i k, e.same_iff i j, lookup-set k j v m)

  pub lookup-delete :
      (k j : K) (m : Map K V) → lookup j (delete k m) ≡ (if k == j then none else lookup j m)
  unfolding lookup delete
  lookup-delete k j [] = ground arith
  lookup-delete k j ((i, w) ∷ m) =
      ground (arith, e.same_iff k j, e.same_iff i k, e.same_iff i j, lookup-delete k j m)

  pub lookup-set_self : (k : K) (v : V) (m : Map K V) → lookup k (set k v m) ≡ some v
  lookup-set_self k v m = ground (arith, lookup-set k k v m, beq_refl k)

  pub lookup-set_ne : (k j : K) (v : V) (m : Map K V) → k ≢ j → lookup j (set k v m) ≡ lookup j m
  lookup-set_ne k j v m h = ground (arith, lookup-set k j v m, ne→beq-false k j h)

  pub lookup-delete_self : (k : K) (m : Map K V) → lookup k (delete k m) ≡ none
  lookup-delete_self k m = ground (arith, lookup-delete k k m, beq_refl k)

  pub lookup-delete_ne : (k j : K) (m : Map K V) → k ≢ j → lookup j (delete k m) ≡ lookup j m
  lookup-delete_ne k j m h = ground (arith, lookup-delete k j m, ne→beq-false k j h)

  pub size-set :
      (k : K) (v : V) (m : Map K V) → size (set k v m) ≡ (if has k m then size m else size m + 1)
  unfolding lookup set
  size-set k v [] = omega arith
  size-set k v ((j, w) ∷ m) = ground (arith, size-set k v m)

  pub size-delete-le : (k : K) (m : Map K V) → size (delete k m) ≤ size m
  unfolding delete
  size-delete-le k [] = omega arith
  size-delete-le k ((j, w) ∷ m) = ground (arith, size-delete-le k m)

  -- A map as the runtime makes it: no key twice.
  abbrev pub IsUnique : Map K V → Type 0
  IsUnique [] = Unit {0}
  IsUnique ((k, v) ∷ m) = (has k m ≡ false) × IsUnique m

  pub delete_absent : (k : K) (m : Map K V) → has k m ≡ false → delete k m ≡ m
  unfolding lookup delete
  delete_absent k [] h = refl
  delete_absent k ((j, w) ∷ m) h = ground (arith, delete_absent k m)

  pub size-delete :
      (k : K) (m : Map K V)
      → IsUnique m
      → (if has k m then size (delete k m) + 1 else size (delete k m)) ≡ size m
  unfolding lookup delete
  size-delete k [] u = omega arith
  size-delete k ((j, w) ∷ m) u =
      ground (arith, e.same_iff j k, size-delete k m u.1, delete_absent k m)

  has-set : (k j : K) (v : V) (m : Map K V) → has j (set k v m) ≡ (if k == j then true else has j m)
  has-set k j v m = ground (arith, lookup-set k j v m)

  has-delete-false : (k j : K) (m : Map K V) → has j m ≡ false → has j (delete k m) ≡ false
  has-delete-false k j m h = ground (arith, lookup-delete k j m)

  pub set-IsUnique : (k : K) (v : V) (m : Map K V) → IsUnique m → IsUnique (set k v m)
  unfolding set lookup
  set-IsUnique k v [] u = (refl, tt)
  set-IsUnique k v ((j, w) ∷ m) u =
      ground (arith, e.same_iff j k, e.same_iff k j, set-IsUnique k v m u.1, has-set k j v m)

  pub delete-IsUnique : (k : K) (m : Map K V) → IsUnique m → IsUnique (delete k m)
  unfolding delete
  delete-IsUnique k [] u = tt
  delete-IsUnique k ((j, w) ∷ m) u = ground (arith, delete-IsUnique k m u.1, has-delete-false k j m)
