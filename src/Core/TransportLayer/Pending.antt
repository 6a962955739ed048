-- ===== src/Core/TransportLayer/Pending.antt =====
-- core/src/TLayer.ts: frames that are sent before the transport listens.
use rivalis.Common.{
  ℕ, ◌≤◌, ◌<◌, ◌≡◌, refl, sym, ap, ◌∙◌, true, List, [], ◌∷◌, ◌++◌, none, some, string_key, leb, ltb,
  length, take, if◌then◌else◌, arith, append_assoc, append-nil, length-append, take_all, subst,
  lt→ltb, Bool-cases, inl, inr, take-append_length,
}
use rivalis.Common.Map
use rivalis.Common.Map.{Map}
use rivalis.Core.TransportLayer.{
  EventKey, event_key, EventEmitter, Layer, actor_of, max_pending, fire, fire_all, flush_pending,
  on, buffer, emit, or_empty,
}

full-take :
    (frames queue : List (List ℕ))
    → length queue ≤ max_pending
    → leb max_pending (length queue) ≡ true
    → take max_pending (queue ++ frames) ≡ queue
full-take frames queue b t =
    let e : max_pending ≡ length queue = ground arith in rw (e, take-append_length)

module _ {E : Type 0} (m : EventEmitter E) where
  abbrev pub fires : EventKey → List (List ℕ) → E → E
  fires key [] e = e
  fires key (f ∷ fs) e = fires key fs (m.fire key f e)

  -- What the layer relies on: a listener that `on` adds is there until it is removed, however many
  -- events fire.
  abbrev pub KeepsListeners : Type 0
  KeepsListeners =
      (key : EventKey) (frames : List (List ℕ)) (e : E)
      → 0 < m.listener_count key (fires key frames (m.listen key e))

  unfoldable pub emit_all : EventKey → List (List ℕ) → Layer E → Layer E
  emit_all key [] l = l
  emit_all key (f ∷ fs) l = emit_all key fs (emit m key f l)

  -- Frames for a key.
  abbrev pub tagged : EventKey → List (List ℕ) → List (EventKey × List ℕ)
  tagged key [] = []
  tagged key (f ∷ fs) = (key, f) ∷ tagged key fs

  -- A frame that finds no listener joins its queue, unless that is full.
  emit-queue :
      (key : EventKey) (f : List ℕ) (l : Layer E)
      → m.listener_count key l.emitter ≡ 0
      → Map.has (actor_of key) l.room_ids ≡ true
      → let queue = or_empty (Map.lookup key l.pending) in
        emit m key f l ≡ record l {
          pending =
              Map.set key
                (if leb max_pending (length queue) then queue else queue ++ f ∷ [])
                l.pending;
        }
  unfolding emit buffer
  emit-queue key f l q a =
      elim (Bool-cases (leb max_pending (length (or_empty (Map.lookup key l.pending))))) [
        | inl t ↦ rw (q, a, t)
        | inr t ↦ rw (q, a, t)
      ]

  -- From `l` to `k` only a queue has changed.
  abbrev Queued : EventKey → List (List ℕ) → Layer E → Layer E → Type 0
  Queued key queue l k =
      (Map.lookup key k.pending ≡ some queue)
      × (k.emitter ≡ l.emitter)
      × (k.delivered ≡ l.delivered)

  emit_all-queue :
      (key : EventKey) (frames queue : List (List ℕ)) (l : Layer E)
      → m.listener_count key l.emitter ≡ 0
      → Map.has (actor_of key) l.room_ids ≡ true
      → Map.lookup key l.pending ≡ some queue
      → length queue ≤ max_pending
      → Queued key (take max_pending (queue ++ frames)) l (emit_all key frames l)
  unfolding emit_all
  emit_all-queue key [] queue l q a p b =
      (rw (append-nil queue, take_all max_pending queue b) p, refl, refl)
  emit_all-queue key (f ∷ fs) queue l q a p b = elim (Bool-cases (leb max_pending (length queue))) [
    | inl t ↦
        let k = record l { pending = Map.set key queue l.pending } in
        let e : emit m key f l ≡ k = emit-queue key f l q a ∙ rw (p, t) in
        let g = full-take (f ∷ fs) queue b t ∙ sym (full-take fs queue b t) in
        subst (λ j. Queued key (take max_pending (queue ++ f ∷ fs)) l (emit_all key fs j)) (sym e)
          (subst (λ xs. Queued key xs l (emit_all key fs k)) (sym g)
            (emit_all-queue key fs queue k q a (Map.lookup-set_self key queue l.pending) b))
    | inr t ↦
        let queue' = queue ++ f ∷ [] in
        let k = record l { pending = Map.set key queue' l.pending } in
        let e : emit m key f l ≡ k = emit-queue key f l q a ∙ rw (p, t) in
        subst (λ j. Queued key (take max_pending (queue ++ f ∷ fs)) l (emit_all key fs j)) (sym e)
          (subst (λ xs. Queued key (take max_pending xs) l (emit_all key fs k))
            (append_assoc queue (f ∷ []) fs)
            (emit_all-queue key fs queue' k q a (Map.lookup-set_self key queue' l.pending)
              (ground (arith, length-append queue (f ∷ [])))))
  ]

  fire_all-delivered :
      (key : EventKey) (frames : List (List ℕ)) (l : Layer E)
      → ((gs : List (List ℕ)) → 0 < m.listener_count key (fires key gs l.emitter))
      → ((fire_all m key frames l).delivered ≡ l.delivered ++ tagged key frames)
        × ((fire_all m key frames l).pending ≡ l.pending)
  unfolding fire_all fire
  fire_all-delivered key [] l h = (sym (append-nil l.delivered), refl)
  fire_all-delivered key (f ∷ fs) l h =
      let t : ltb 0 (m.listener_count key l.emitter) ≡ true =
        lt→ltb 0 (m.listener_count key l.emitter) (h []) in
      let (d, p) = fire_all-delivered key fs (fire m key f l) (λ gs. h (f ∷ gs)) in
      (d ∙ rw t (append_assoc l.delivered ((key, f) ∷ []) (tagged key fs)), p)

  on-flushes :
      (key : EventKey) (queue : List (List ℕ)) (l : Layer E)
      → KeepsListeners
      → Map.lookup key l.pending ≡ some queue
      → ((on m key l).delivered ≡ l.delivered ++ tagged key queue)
        × (Map.lookup key (on m key l).pending ≡ none)
  unfolding on flush_pending
  on-flushes key queue l keeps p =
      let k = record l { emitter = m.listen key l.emitter; pending = Map.delete key l.pending } in
      let (d, r) = fire_all-delivered key queue k (λ gs. keeps key gs l.emitter) in
      rw (p, flush_pending) (d, rw r (Map.lookup-delete_self key l.pending))

  on_quiet :
      (key : EventKey) (l : Layer E)
      → Map.lookup key l.pending ≡ none
      → on m key l ≡ record l { emitter = m.listen key l.emitter }
  unfolding on flush_pending
  on_quiet key l p = rw (p, flush_pending)

  -- If the emitter keeps its listeners: frames sent to a registered actor before anything listens reach the first listener in the order
  -- of sending, at most 256 of them, and nothing stays behind.
  pub on-delivers :
      (key : EventKey) (frames : List (List ℕ)) (l : Layer E)
      → KeepsListeners
      → m.listener_count key l.emitter ≡ 0
      → Map.has (actor_of key) l.room_ids ≡ true
      → Map.lookup key l.pending ≡ none
      → ((on m key (emit_all key frames l)).delivered
          ≡ l.delivered ++ tagged key (take max_pending frames))
        × (Map.lookup key (on m key (emit_all key frames l)).pending ≡ none)
  unfolding emit_all
  on-delivers key [] l keeps q a p = rw (on_quiet key l p) (sym (append-nil l.delivered), p)
  on-delivers key (f ∷ fs) l keeps q a p =
      let k = record l { pending = Map.set key (f ∷ []) l.pending } in
      let e : emit m key f l ≡ k = emit-queue key f l q a ∙ rw p in
      let (r, s, t) =
        emit_all-queue key fs (f ∷ []) k q a (Map.lookup-set_self key (f ∷ []) l.pending)
          (omega arith) in
      let (d, z) = on-flushes key (take max_pending (f ∷ fs)) (emit_all key fs k) keeps r in
      rw e (d ∙ ap (λ xs. xs ++ tagged key (take max_pending (f ∷ fs))) t, z)
