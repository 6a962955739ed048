-- ===== src/Core/Room/Joins.antt =====
-- core/src/Room.ts: joins and leaves of actors, and the destruction of an empty room.
use rivalis.Common.{
  ◌<◌, ◌≡◌, refl, sym, ap, ◌∙◌, true, false, [], ◌∷◌, none, some, String, string_key, eqb,
  if◌then◌else◌, arith, Option-cases, Bool-cases, inl, inr, ◌⊎◌,
}
use rivalis.Common.Map
use rivalis.Common.Map.{Map}
use rivalis.Core.Room.{
  Room, hook_threw, Hooks, HookRun, handle_join, handle_leave, after_leave,
  schedule_destroy_on_empty, microtask,
}
use text.Mathlib.TextEquality.{eq_iff}

pub set-delete :
    {D : Type 0} (k : String) (v : D) (m : Map String D)
    → Map.has k m ≡ false
    → Map.delete k (Map.set k v m) ≡ m
unfolding Map.delete Map.set Map.lookup
set-delete k v [] h = ground (arith, Map.beq_refl k)
set-delete k v ((j, w) ∷ m) h = ground (arith, set-delete k v m, eq_iff j k)

present : {D : Type 0} (k : String) (m : Map String D) → Map.has k m ≡ true → 0 < Map.size m
unfolding Map.lookup
present k [] h = cc
present k ((j, w) ∷ m) h = omega arith

module _ {D : Type 0} (hooks : Hooks D) where
  -- The hooks leave the table of actors alone: it is private to Room, which changes it in
  -- `handleJoin`, `handleLeave` and `handleDestroy` only.
  abbrev pub KeepsActors : Type 0
  KeepsActors =
      ((id : String) (r : Room D) → (hooks.on_join id r).0.actors ≡ r.actors)
      × ((id : String) (info : D) (r : Room D) → (hooks.on_leave id info r).0.actors ≡ r.actors)

  -- What `onJoin` does, once the actor is in the table.
  abbrev pub on_joined : String → D → Room D → HookRun D
  on_joined id info r = hooks.on_join id (record r { actors = Map.set id info r.actors })

  join_cases :
      (id : String) (info : D) (r : Room D)
      → KeepsActors
      → (((on_joined id info r).2 ≡ false)
          × ((handle_join hooks id info r).2 ≡ none)
          × ((handle_join hooks id info r).0.actors ≡ Map.set id info r.actors))
        ⊎ (((on_joined id info r).2 ≡ true)
            × ((handle_join hooks id info r).2 ≡ some hook_threw)
            × ((handle_join hooks id info r).0.actors ≡ Map.delete id (Map.set id info r.actors)))
  unfolding handle_join
  join_cases id info r keeps =
      let r₀ = record r { actors = Map.set id info r.actors } in
      let run = hooks.on_join id r₀ in
      elim (Bool-cases run.2) [
        | inl t ↦ rw t (inr (refl, refl, ap (Map.delete id) (keeps.0 id r₀)))
        | inr t ↦ elim (Bool-cases run.0.presence) [
          | inl p ↦ rw (t, p) (inl (refl, refl, keeps.0 id r₀))
          | inr p ↦ rw (t, p) (inl (refl, refl, keeps.0 id r₀))
        ]
      ]

  after_leave-actors : (r : Room D) → (after_leave r).0.actors ≡ r.actors
  unfolding after_leave schedule_destroy_on_empty
  after_leave-actors r = ground arith

  leave-actors :
      (id : String) (r : Room D)
      → KeepsActors
      → (handle_leave hooks id r).0.actors ≡ Map.delete id r.actors
  unfolding handle_leave
  leave-actors id r keeps = elim (Option-cases (Map.lookup id r.actors)) [
    | inl q ↦ rw (q, handle_leave)
    | inr (info, q) ↦
        let r₀ = record r { actors = Map.delete id r.actors } in
        rw (q, handle_leave) (after_leave-actors (hooks.on_leave id info r₀).0 ∙ keeps.1 id info r₀)
  ]

  -- If the hooks leave the table of actors alone, an actor whose id is new leaves no trace in it. Where
  -- `onJoin` throws, the join throws, and the table is at once as it was; else the actor is in the table
  -- with its data, and the leave gives the table back as it was.
  pub leave-join :
      (id : String) (info : D) (r : Room D)
      → KeepsActors
      → Map.has id r.actors ≡ false
      → let threw = (on_joined id info r).2 in
        let joined = handle_join hooks id info r in
        (joined.2 ≡ (if threw then some hook_threw else none))
        × (joined.0.actors ≡ (if threw then r.actors else Map.set id info r.actors))
        × ((if threw then joined.0 else (handle_leave hooks id joined.0).0).actors ≡ r.actors)
  leave-join id info r keeps fresh =
      let joined = handle_join hooks id info r in
      let gone = set-delete id info r.actors fresh in
      elim (join_cases id info r keeps) [
        | inl (t, e, a) ↦ rw t (e, a, leave-actors id joined.0 keeps ∙ rw a gone)
        | inr (t, e, a) ↦ rw t (e, a ∙ gone, a ∙ gone)
      ]

  -- If the hooks leave the table of actors alone: a join that does not throw, and comes before the
  -- scheduled teardown of an empty room, cancels it: the microtask destroys nothing.
  pub microtask-join :
      (id : String) (info : D) (r : Room D)
      → KeepsActors
      → (handle_join hooks id info r).2 ≡ none
      → (microtask (handle_join hooks id info r).0).1 ≡ []
  unfolding microtask
  microtask-join id info r keeps joined = elim (join_cases id info r keeps) [
    | inl (t, e, a) ↦
        let z : eqb (Map.size (handle_join hooks id info r).0.actors) 0 ≡ false =
          rw a (ground (arith, Map.size-set id info r.actors, present id r.actors)) in
        elim (Bool-cases (handle_join hooks id info r).0.attached) [
          | inl t ↦ rw (t, z)
          | inr t ↦ rw t
        ]
    | inr (t, e, a) ↦ let z : some hook_threw ≡ none = sym e ∙ joined in cc
  ]
