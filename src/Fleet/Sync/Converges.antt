-- ===== src/Fleet/Sync/Converges.antt =====
-- A poll of Orchestrator.ts, its reply by Snapshot.ts, and the read model after it.
use rivalis.Common.{
  ℕ, ◌+◌, ◌<◌, ◌≤◌, ◌≡◌, ◌⊎◌, refl, Bool, true, false, not, List, Option, none, some, ◌==◌, arith,
  either_way, inl, inr, ap, ◌∙◌, sym, subst,
}
use rivalis.Common.Map
use rivalis.Handshake.Utf8.{Text}
use rivalis.Core.Room.{text_key}
use rivalis.Fleet.Model.{InstanceInfo, SyncPayload}
use rivalis.Fleet.FleetState.{
  InstanceRecord, State, build_instance_info, is_confirmed, clear_pending_visibility,
  reconcile_pending_status,
}
use rivalis.Fleet.FleetState.Changes.{
  is_out_of_order, store_snapshot, apply_snapshot, sync_at, touch, set_stale, last_hash_of,
}
use rivalis.Fleet.Poller.{reply}
use rivalis.Fleet.Snapshot.{
  SnapshotContent, Agent, LiveRoom, StateFrame, build_content, payload_of, is_known, poll_reply,
}
use rivalis.Fleet.Sync.{Orchestrator, ingest, handle_state}

-- The read model's row of an instance is that of a content that the agent had, with its hash.
abbrev pub IsRecordOf :
    (SnapshotContent → Text) → Text → SnapshotContent → ℕ → ℕ → InstanceRecord → Type 0
IsRecordOf hash64 i c t n r =
    (r.info ≡ build_instance_info i (payload_of 0 (hash64 c) c) t)
    × (r.last_hash ≡ hash64 c)
    × (r.last_seq ≡ n)

-- The instance has such a row.
abbrev pub IsReported : (SnapshotContent → Text) → Text → SnapshotContent → ℕ → ℕ → State → Type 0
IsReported hash64 i c t n s =
    (r : InstanceRecord) × (Map.lookup i s.records ≡ some r) × IsRecordOf hash64 i c t n r

clear-records : (i : Text) (s : State) → (clear_pending_visibility i s).records ≡ s.records
unfolding clear_pending_visibility
clear-records i s =
    either_way (λ (t : State). t.records ≡ s.records) (Map.has i s.pending_by_instance) refl refl

reconcile-records : (i : Text) (s : State) → (reconcile_pending_status i s).records ≡ s.records
unfolding reconcile_pending_status
reconcile-records i s =
    either_way (λ (t : State). t.records ≡ s.records)
      (is_confirmed (Map.lookup i s.pending_status) (Map.lookup i s.records)) refl refl

settle-records :
    (i : Text) (s : State)
    → (reconcile_pending_status i (clear_pending_visibility i s)).records ≡ s.records
settle-records i s = reconcile-records i (clear_pending_visibility i s) ∙ clear-records i s

applied :
    (i : Text) (p : SyncPayload) (t : ℕ) (s : State)
    → is_out_of_order (Map.lookup i s.records) p.seq ≡ false
    → (apply_snapshot i p t s).0.records ≡ (store_snapshot i p t s).records
unfolding apply_snapshot
applied i p t s h = rw (h, apply_snapshot) (settle-records i (store_snapshot i p t s))

stored :
    (hash64 : SnapshotContent → Text) (i : Text) (c : SnapshotContent) (t n : ℕ) (s : State)
    → IsReported hash64 i c t n (store_snapshot i (payload_of n (hash64 c) c) t s)
unfolding store_snapshot build_instance_info
stored hash64 i c t n s = (_, Map.lookup-set_self i _ s.records, (refl, refl, refl))

-- What a state's records say of an instance.
records-IsReported :
    (hash64 : SnapshotContent → Text) (i : Text) (c : SnapshotContent) (t n : ℕ) (s s' : State)
    → s'.records ≡ s.records
    → IsReported hash64 i c t n s
    → IsReported hash64 i c t n s'
records-IsReported hash64 i c t n s s' e (r, q, w) = (r, ap (Map.lookup i) e ∙ q, w)

-- A snapshot that is in order is stored.
snapshot-IsReported :
    (hash64 : SnapshotContent → Text) (i : Text) (c : SnapshotContent) (t n : ℕ) (s : State)
    → is_out_of_order (Map.lookup i s.records) n ≡ false
    → IsReported hash64 i c t n (apply_snapshot i (payload_of n (hash64 c) c) t s).0
snapshot-IsReported hash64 i c t n s h =
    let p = payload_of n (hash64 c) c in
    records-IsReported hash64 i c t n (store_snapshot i p t s) (apply_snapshot i p t s).0
      (applied i p t s h) (stored hash64 i c t n s)

pub touched :
    (i : Text) (u : ℕ) (s : State) (r : InstanceRecord)
    → Map.lookup i s.records ≡ some r
    → (touch i u s).records ≡ Map.set i (sync_at u r) s.records
unfolding touch
touched i u s r q =
    rw (q, touch) (settle-records i (record s { records = Map.set i (sync_at u r) s.records }))

-- A hash-only reply moves the time only.
touch-IsReported :
    (hash64 : SnapshotContent → Text) (i : Text) (c : SnapshotContent) (t u n : ℕ) (s : State)
    → IsReported hash64 i c t n s
    → IsReported hash64 i c u n (touch i u s)
unfolding sync_at build_instance_info
touch-IsReported hash64 i c t u n s (r, q, (a, b, d)) = (
  sync_at u r,
  ap (Map.lookup i) (touched i u s r q) ∙ Map.lookup-set_self i (sync_at u r) s.records,
  (ap (λ (x : InstanceInfo). record x { last_sync_at = u }) a, b, d),
)

-- A reply that is in order, and full unless its content is the one that was reported.
ingest-IsReported :
    (hash64 : SnapshotContent → Text) (i : Text) (c c' : SnapshotContent) (t u n seq req_id : ℕ)
    (full : Bool) (s : State)
    → IsReported hash64 i c t n s
    → n < seq
    → (full ≡ false → c ≡ c')
    → (let frame : StateFrame = record {
      req_id = req_id;
      full = full;
      payload = payload_of seq (hash64 c') c';
    } in
        (m : ℕ) × IsReported hash64 i c' u m (ingest i frame u true s).0)
unfolding ingest
ingest-IsReported hash64 i c c' t u n seq req_id true s (r, q, (a, b, d)) h same =
    (seq, snapshot-IsReported hash64 i c' u seq s (rw q (ground arith)))
ingest-IsReported hash64 i c c' t u n seq req_id false s w h same = (
  n,
  subst (λ x. IsReported hash64 i x u n (touch i u s)) (same refl)
      (touch-IsReported hash64 i c t u n s w),
)

stale-IsReported :
    (hash64 : SnapshotContent → Text) (i : Text) (c : SnapshotContent) (t n : ℕ) (s : State)
    → IsReported hash64 i c t n s
    → IsReported hash64 i c t n (set_stale i false s)
unfolding set_stale
stale-IsReported hash64 i c t n s w = w

known-same :
    (hash64 : SnapshotContent → Text) (i : Text) (c c' : SnapshotContent) (t n : ℕ) (s : State)
    (known : Option Text)
    → IsReported hash64 i c t n s
    → ((known ≡ none) ⊎ (known ≡ last_hash_of i s))
    → not (is_known known (hash64 c')) ≡ false
    → hash64 c ≡ hash64 c'
unfolding last_hash_of
known-same hash64 i c c' t n s known (r, q, (a, b, d)) (inl e) h = let z = rw e at h in cc
known-same hash64 i c c' t n s known (r, q, (a, b, d)) (inr e) h =
    let f : known ≡ some r.last_hash = (let z = rw (q, last_hash_of) at e in z) in
    let z = rw f at h in
    let g : (hash64 c' == r.last_hash) ≡ true = ground arith in
    sym b ∙ sym ((text_key.same_iff (hash64 c') r.last_hash).0 g)

-- If the read model has a row of a content of the agent's, the poll asked with its hash or with none, the reply is to the
-- outstanding poll, its snapshot is valid, the agent's counter has not fallen behind, and the hash tells
-- the old content and the new apart: after the reply the read model's row is that of what the agent has, at the
-- time of the reply, whether the reply was full or not.
pub handle_state-IsReported :
    (hash64 : SnapshotContent → Text) (i : Text) (c : SnapshotContent) (t u n req_id : ℕ)
    (known : Option Text) (definitions : List Text) (live : List LiveRoom) (a : Agent)
    (o : Orchestrator)
    → IsReported hash64 i c t n o.state
    → ((known ≡ none) ⊎ (known ≡ last_hash_of i o.state))
    → (reply i req_id o.poller).1 ≡ true
    → n ≤ a.seq
    → (hash64 c ≡ hash64 (build_content definitions live a) → c ≡ build_content definitions live a)
    → (m : ℕ) × IsReported hash64 i
        (build_content definitions live a)
        u
        m
        (handle_state i (poll_reply hash64 req_id known definitions live a).1 u true o).0.state
unfolding handle_state poll_reply
handle_state-IsReported hash64 i c t u n req_id known definitions live a o w k expected h apart =
    let c' = build_content definitions live a in
    rw expected (
      ingest-IsReported hash64 i c c' t u n (a.seq + 1) req_id (not (is_known known (hash64 c')))
        (set_stale i false o.state) (stale-IsReported hash64 i c t n o.state w) (omega (arith, h))
        (λ e. apart (known-same hash64 i c c' t n o.state known w k e)))
