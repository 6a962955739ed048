-- ===== src/Core/Room/Topics.antt =====
-- core/src/Room.ts: which topics user code can bind and unbind.
use rivalis.Common.{
  ℕ, ◌≡◌, refl, ap, subst, Bool, true, false, List, [], ◌∷◌, none, ◌==◌, arith, Option-cases,
  Bool-cases, inl, inr,
}
use rivalis.Common.Map
use rivalis.Common.Map.{Map}
use rivalis.Common.Result.{Result, ok, err, stuck, ok-injective}
use rivalis.Handshake.Utf8.{Text}
use rivalis.Core.Room.{
  text_key, same_text_iff, is_reserved, wildcard_topic, Room, RoomError, assert_bindable_topic,
  bind, unbind,
}

bindable :
    (topic : Text)
    → assert_bindable_topic topic ≡ none
    → (is_reserved topic ≡ false) × ((topic == wildcard_topic) ≡ false)
unfolding assert_bindable_topic
bindable topic h = ground arith

-- No topic of the framework, and not `*`, has a listener.
abbrev pub Unreserved : Map Text ℕ → Type 0
Unreserved topics =
    (topic : Text)
    → Map.has topic topics ≡ true
    → (is_reserved topic ≡ false) × ((topic == wildcard_topic) ≡ false)

pub data TopicCall : Type 0 where
  binds : Text → ℕ → TopicCall
  unbinds : Text → TopicCall

module _ {D : Type 0} where
  abbrev after_bind : Room D → Result RoomError (Room D) → Room D
  after_bind r (ok r') = r'
  after_bind r (err e) = r
  after_bind r stuck = r

  abbrev after_unbind : Room D → Result RoomError (Room D × Bool) → Room D
  after_unbind r (ok p) = p.0
  after_unbind r (err e) = r
  after_unbind r stuck = r

  -- A call that throws leaves the room as it is.
  unfoldable pub call_topics : List TopicCall → Room D → Room D
  call_topics [] r = r
  call_topics (binds topic l ∷ cs) r = call_topics cs (after_bind r (bind topic l r))
  call_topics (unbinds topic ∷ cs) r = call_topics cs (after_unbind r (unbind topic r))

  bind-Unreserved :
      (topic : Text) (l : ℕ) (r r' : Room D)
      → bind topic l r ≡ ok r'
      → Unreserved r.topics
      → Unreserved r'.topics
  unfolding bind
  bind-Unreserved topic l r r' q h = elim (Option-cases (assert_bindable_topic topic)) [
    | inr (e, t) ↦ let z = rw (t, bind) at q in cc
    | inl t ↦ elim (Bool-cases (Map.has topic r.topics)) [
      | inl b ↦ let z = rw (t, bind, b) at q in cc
      | inr b ↦
          let z = rw (t, bind, b) at q in
          let g : record r { topics = Map.set topic l r.topics } ≡ r' = ok-injective z in
          let (u, v) = bindable topic t in
          subst (λ x. Unreserved x.topics) g
            (λ other p. ground (
              arith,
              h other,
              Map.lookup-set topic other l r.topics,
              same_text_iff topic other,
              u,
              v,
            ))
    ]
  ]

  after_bind-Unreserved :
      (topic : Text) (l : ℕ) (r : Room D) (x : Result RoomError (Room D))
      → bind topic l r ≡ x
      → Unreserved r.topics
      → Unreserved (after_bind r x).topics
  after_bind-Unreserved topic l r (ok r') q h = bind-Unreserved topic l r r' q h
  after_bind-Unreserved topic l r (err e) q h = h
  after_bind-Unreserved topic l r stuck q h = h

  after_unbind-Unreserved :
      (topic : Text) (r : Room D) (x : Result RoomError (Room D × Bool))
      → unbind topic r ≡ x
      → Unreserved r.topics
      → Unreserved (after_unbind r x).topics
  unfolding unbind
  after_unbind-Unreserved topic r (err e) q h = h
  after_unbind-Unreserved topic r stuck q h = h
  after_unbind-Unreserved topic r (ok (r', found)) q h =
      elim (Option-cases (assert_bindable_topic topic)) [
        | inl t ↦
            let z = rw (t, unbind) at q in
            let g = ap (λ p. p.0) (ok-injective z) in
            subst (λ x. Unreserved x.topics) g
              (λ other p. h other (ground (arith, Map.lookup-delete topic other r.topics)))
        | inr (e, t) ↦ let z = rw (t, unbind) at q in cc
      ]

  -- From a room of which it holds, and whatever user code binds and unbinds, no listener stands on a topic that begins with `__`, and
  -- none on `*`.
  pub call_topics-Unreserved :
      (cs : List TopicCall) (r : Room D)
      → Unreserved r.topics
      → Unreserved (call_topics cs r).topics
  unfolding call_topics
  call_topics-Unreserved [] r h = h
  call_topics-Unreserved (binds topic l ∷ cs) r h =
      call_topics-Unreserved cs (after_bind r (bind topic l r))
        (after_bind-Unreserved topic l r (bind topic l r) refl h)
  call_topics-Unreserved (unbinds topic ∷ cs) r h =
      call_topics-Unreserved cs (after_unbind r (unbind topic r))
        (after_unbind-Unreserved topic r (unbind topic r) refl h)
