-- ===== src/Fleet/FleetState/Stats/Heartbeat.antt =====
-- FleetState.stats after `touch` and `setStale`.
use rivalis.Common.{
  Bool, ℕ, suc, ◌+◌, ◌≡◌, refl, List, [], ◌∷◌, some, ◌==◌, arith, Bool-cases, Option-cases, inl,
  inr, ap, ◌∙◌, sym, length, map,
}
use rivalis.Common.Map
use rivalis.Common.Map.{Map}
use rivalis.Handshake.Utf8.{Text}
use rivalis.Core.Room.{text_key}
use rivalis.Fleet.Model.{InstanceInfo, RoomInfo}
use rivalis.Fleet.FleetState.{State, InstanceRecord}
use rivalis.Fleet.FleetState.Changes.{sync_at, touch, set_stale}
use rivalis.Fleet.FleetState.Resolve.{
  entry_of, entries_of_record, entries_from, group, rooms_by_instance, public_instance, RoomEntry,
  resolve,
}
use rivalis.Fleet.FleetState.Queries.{Projection, project, sort_by_id, state_projection}
use rivalis.Fleet.FleetState.Stats.{FleetStats, Tally, tally, stats}
use rivalis.Fleet.Snapshot.{sort_texts}
use rivalis.Fleet.Sync.Converges.{touched}

abbrev undated : InstanceRecord → InstanceRecord
undated r = sync_at 0 r

entries_of_record-undated :
    (r : InstanceRecord) (k : ℕ) (rooms : List RoomInfo)
    → entries_of_record (undated r) k rooms ≡ entries_of_record r k rooms
unfolding sync_at
entries_of_record-undated r k [] = refl
entries_of_record-undated r k (room ∷ rooms) =
    ap (λ x. entry_of r k room ∷ x) (entries_of_record-undated r (suc k) rooms)

entries_from-undated :
    (k : ℕ) (rs : List InstanceRecord) → entries_from k (map undated rs) ≡ entries_from k rs
unfolding entries_from sync_at
entries_from-undated k [] = refl
entries_from-undated k (r ∷ rs) =
    rw
      (
        entries_of_record-undated r k r.info.rooms,
        entries_from-undated (k + length r.info.rooms) rs,
      )
      refl

project-undated :
    (m : Map Text (List RoomInfo)) (rs : List InstanceRecord)
    → map project (map (public_instance m) (map undated rs))
      ≡ map project (map (public_instance m) rs)
unfolding project sync_at
project-undated m [] = refl
project-undated m (r ∷ rs) = ap (λ x. project (public_instance m r) ∷ x) (project-undated m rs)

tally-undated :
    (m : Map Text (List RoomInfo)) (rs : List InstanceRecord) (t : Tally)
    → tally t (map (public_instance m) (map undated rs)) ≡ tally t (map (public_instance m) rs)
unfolding tally sync_at
tally-undated m [] t = refl
tally-undated m (r ∷ rs) t = tally-undated m rs _

length-undated :
    (m : Map Text (List RoomInfo)) (rs : List InstanceRecord)
    → length (map (public_instance m) (map undated rs)) ≡ length (map (public_instance m) rs)
length-undated m [] = refl
length-undated m (r ∷ rs) = ap suc (length-undated m rs)

undated-dated : (t : ℕ) (r : InstanceRecord) → undated (sync_at t r) ≡ undated r
unfolding sync_at
undated-dated t r = refl

map-undated-set :
    (id : Text) (t : ℕ) (r : InstanceRecord) (m : Map Text InstanceRecord)
    → Map.lookup id m ≡ some r
    → map undated (Map.values (Map.set id (sync_at t r) m)) ≡ map undated (Map.values m)
unfolding Map.lookup Map.set
map-undated-set id t r [] q = cc
map-undated-set id t r ((j, w) ∷ m) q = elim (Bool-cases (j == id)) [
  | inl e ↦
      let same : r ≡ w = ground arith in
      rw e (ap (λ x. x ∷ map undated (Map.values m)) (undated-dated t r ∙ ap undated same))
  | inr e ↦ rw e (ap (λ x. undated w ∷ x) (map-undated-set id t r m (ground arith)))
]

-- The instances that the records show, with the rooms that the entries give them.
abbrev shown : List RoomEntry → List InstanceRecord → List InstanceInfo
shown entries rs = map (public_instance (rooms_by_instance (group entries []) entries [])) rs

abbrev stats_over : (List Projection → Text) → List InstanceRecord → FleetStats
stats_over hash64 rs =
    let is = shown (entries_from 0 rs) rs in
    let t = tally (record { connections = 0; rooms = 0; types = [] }) is in
    record {
      instances = length is;
      rooms = t.rooms;
      connections = t.connections;
      room_types = sort_texts [] (Map.keys t.types);
      state_hash = hash64 (sort_by_id [] (map project is));
    }

stats_over-undated :
    (hash64 : List Projection → Text) (rs : List InstanceRecord)
    → stats_over hash64 (map undated rs) ≡ stats_over hash64 rs
stats_over-undated hash64 rs =
    let es = entries_from 0 rs in
    let m = rooms_by_instance (group es []) es [] in
    rw
      (
        entries_from-undated 0 rs,
        length-undated m rs,
        tally-undated m rs (record { connections = 0; rooms = 0; types = [] }),
        project-undated m rs,
      )
      refl

stats-over :
    (hash64 : List Projection → Text) (s : State)
    → stats hash64 s ≡ stats_over hash64 (Map.values s.records)
unfolding stats resolve state_projection
stats-over hash64 s = refl

touch-stats :
    (hash64 : List Projection → Text) (id : Text) (t : ℕ) (s : State)
    → stats hash64 (touch id t s) ≡ stats hash64 s
unfolding touch
touch-stats hash64 id t s = elim (Option-cases (Map.lookup id s.records)) [
  | inl q ↦ rw (q, touch) refl
  | inr (r, q) ↦
      stats-over hash64 (touch id t s)
      ∙ ap (λ m. stats_over hash64 (Map.values m)) (touched id t s r q)
      ∙ sym (stats_over-undated hash64 _)
      ∙ ap (stats_over hash64) (map-undated-set id t r s.records q)
      ∙ stats_over-undated hash64 (Map.values s.records)
      ∙ sym (stats-over hash64 s)
]

-- Neither a heartbeat nor a change of staleness alters a count of the stats, their room types or their
-- hash, whatever the hash is.
pub stats-touch :
    (hash64 : List Projection → Text) (id : Text) (t : ℕ) (is_stale : Bool) (s : State)
    → (stats hash64 (touch id t s) ≡ stats hash64 s)
      × (stats hash64 (set_stale id is_stale s) ≡ stats hash64 s)
unfolding set_stale stats resolve state_projection
stats-touch hash64 id t is_stale s = (touch-stats hash64 id t s, ground arith)
