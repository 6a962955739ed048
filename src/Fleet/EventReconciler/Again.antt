-- ===== src/Fleet/EventReconciler/Again.antt =====
-- fleet/src/orchestrator/EventReconciler.ts: a second pass over the same read model.
use rivalis.Common.{
  ◌≡◌, refl, List, [], ◌==◌, Bool-cases, inl, inr, ap, ◌∙◌, sym, subst, All-mono, All_both,
}
use rivalis.Handshake.Utf8.{Text}
use rivalis.Core.Room.{text_key}
use rivalis.Fleet.Model.{InstanceInfo}
use rivalis.Fleet.EventReconciler.{
  ReadModel, Known, note_instances, instance_ids, room_ids, keep, gone, sync_hash, drop_gone,
  reconcile,
}
use rivalis.Fleet.EventReconciler.Settled.{
  Knows, note_instances-same, note_instances-known, instance_ids-has, room_ids-has, has-keep,
  keep_again, gone-keep,
}

-- All that the read model has is known, nothing else is, and its hash is the last one.
pub record IsCurrent (m : ReadModel) (k : Known) : Type 0 where
  pub known : Knows k m.instances
  pub rooms : keep (room_ids m.instances) k.known_rooms ≡ k.known_rooms
  pub instances : keep (instance_ids m.instances) k.known_instance_ids ≡ k.known_instance_ids
  pub no_room : gone (room_ids m.instances) k.known_rooms ≡ []
  pub hash : k.last_stats_hash ≡ m.state_hash

drop_gone-known : (is : List InstanceInfo) (k : Known) → Knows k is → Knows (drop_gone is k).0 is
unfolding drop_gone
drop_gone-known is k h =
    All-mono _ _ is
      (λ i p. (
        has-keep (instance_ids is) i.id k.known_instance_ids p.1.0 ∙ p.0.0,
        All-mono _ _ i.rooms (λ room q. has-keep (room_ids is) room.id k.known_rooms q.1 ∙ q.0)
            (All_both _ _ i.rooms p.0.1 p.1.1),
      ))
      (All_both _ _ is h (All_both _ _ is (instance_ids-has is) (room_ids-has is)))

drop_gone-IsCurrent :
    (m : ReadModel) (k : Known)
    → Knows k m.instances
    → IsCurrent m (record (drop_gone m.instances k).0 { last_stats_hash = m.state_hash })
unfolding drop_gone
drop_gone-IsCurrent m k h = record {
  known = drop_gone-known m.instances k h;
  rooms = keep_again (room_ids m.instances) k.known_rooms;
  instances = keep_again (instance_ids m.instances) k.known_instance_ids;
  no_room = gone-keep (room_ids m.instances) k.known_rooms;
  hash = refl;
}

sync_hash_lem :
    (hash : Text) (k : Known) → (sync_hash hash k).0 ≡ record k { last_stats_hash = hash }
unfolding sync_hash
sync_hash_lem hash k = elim (Bool-cases (hash == k.last_stats_hash)) [
  | inl t ↦ rw t (
      ap (λ (h : Text). record k { last_stats_hash = h })
        (sym ((text_key.same_iff hash k.last_stats_hash).0 t)))
  | inr t ↦ rw t refl
]

reconcile-IsCurrent : (m : ReadModel) (k : Known) → IsCurrent m (reconcile m k).0
unfolding reconcile
reconcile-IsCurrent m k =
    let k' = (note_instances m.instances k).0 in
    subst (IsCurrent m) (sym (sync_hash_lem m.state_hash (drop_gone m.instances k').0))
      (drop_gone-IsCurrent m k' (note_instances-known m.instances k))

drop_gone-none : (m : ReadModel) (k : Known) → IsCurrent m k → drop_gone m.instances k ≡ (k, [])
unfolding drop_gone
drop_gone-none m k c = rw (c.rooms, c.instances, c.no_room) refl

sync_hash-none : (m : ReadModel) (k : Known) → IsCurrent m k → sync_hash m.state_hash k ≡ (k, [])
unfolding sync_hash
sync_hash-none m k c =
    let t = (text_key.same_iff m.state_hash k.last_stats_hash).1 (sym c.hash) in rw t refl

current-reconcile : (m : ReadModel) (k : Known) → IsCurrent m k → reconcile m k ≡ (k, [])
unfolding reconcile
current-reconcile m k c =
    rw (note_instances-same m.instances k c.known, drop_gone-none m k c, sync_hash-none m k c) refl

-- Whatever was known before: after a reconciliation every instance and room of the read model is known,
-- no other room or instance is, the hash is the model's, and a second reconciliation of the same model emits nothing and
-- changes nothing.
pub reconcile-reconcile :
    (m : ReadModel) (k : Known)
    → IsCurrent m (reconcile m k).0 × (reconcile m (reconcile m k).0 ≡ ((reconcile m k).0, []))
reconcile-reconcile m k =
    (reconcile-IsCurrent m k, current-reconcile m (reconcile m k).0 (reconcile-IsCurrent m k))
