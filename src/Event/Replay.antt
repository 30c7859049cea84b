-- ===== src/Event/Replay.antt =====
-- core/shared/pkg/event/aggregate_root.go: saving an aggregate's pending events and loading them
-- again gives the aggregate that MarkPersisted leaves in memory.
use wechat_clone.Base.{◌≡◌, refl, ap, String, Option, none, some, List, [], ◌∷◌, ◌++◌, arith}
use wechat_clone.Event.{
  RootError, Event, AggregateRoot, Aggregate, last_version, mark_persisted, new_event, apply_change,
  loaded, load_from_history,
}
use wechat_clone.Event.Numbering.{last_version-append, apply_change_ok}

loaded-mark_persisted :
    {D : Type 0} (r : AggregateRoot D) (e : Event D)
    → e.aggregate_id ≡ r.aggregate_id
    → loaded (mark_persisted r) e ≡ mark_persisted (record r { events = r.events ++ (e ∷ []) })
unfolding mark_persisted last_version
loaded-mark_persisted {D} r e h = go r.events refl
  where
    go :
        (es : List (Event D))
        → r.events ≡ es
        → loaded (mark_persisted r) e ≡ mark_persisted (record r { events = r.events ++ (e ∷ []) })
    go [] q = ground arith
    go (x ∷ es) q = ground (arith, last_version-append x.version es e)

-- The aggregate as `MarkPersisted` leaves it.
abbrev pub persisted : {D S : Type 0} → Aggregate D S → Aggregate D S
persisted b = record b { root = mark_persisted b.root }

module _ {D S E : Type 0} (transition : S → Event D → S × Option E) where
  load-append :
      (a b : Aggregate D S) (es : List (Event D)) (e : Event D) (s : S)
      → load_from_history transition a es ≡ (b, none)
      → transition b.state e ≡ (s, none)
      → load_from_history transition a (es ++ (e ∷ []))
        ≡ (record { root = loaded b.root e; state = s }, none)
  unfolding load_from_history
  load-append a b [] e s h t = ground arith
  load-append a b (x ∷ es) e s h t = ground (
    arith,
    load-append (record { root = loaded a.root x; state = (transition a.state x).0 }) b es e s,
  )

  module _ (root_error : RootError → E) (event_name : D → String) where
    -- What a sequence of successful calls of ApplyChange can make of an aggregate.
    pub data Committed (a : Aggregate D S) : Aggregate D S → Type 0 where
      here : Committed a a
      next :
          {b c : Aggregate D S} (d : D)
          → Committed a b
          → apply_change transition root_error event_name b (some d) ≡ (c, none)
          → Committed a c

    load-grown :
        (a b c : Aggregate D S) (e : Event D)
        → e.aggregate_id ≡ b.root.aggregate_id
        → c.root ≡ record (b.root) { events = b.root.events ++ (e ∷ []) }
        → load_from_history transition a (b.root.events ++ (e ∷ []))
          ≡ (record { root = loaded (mark_persisted b.root) e; state = c.state }, none)
        → load_from_history transition a c.root.events ≡ (persisted c, none)
    load-grown a b c e same grown run =
        cc (loaded-mark_persisted b.root e same, ap (λ (r : AggregateRoot D). r.events) grown)

    -- Changes made with success to an aggregate with no pending event leave events which, loaded
    -- into the aggregate as it was before, give the aggregate that MarkPersisted leaves.
    pub load_from_history-mark_persisted :
        {a b : Aggregate D S}
        → a.root.events ≡ []
        → Committed a b
        → load_from_history transition a b.root.events ≡ (persisted b, none)
    unfolding load_from_history mark_persisted new_event
    load_from_history-mark_persisted {a} h here = ground arith
    load_from_history-mark_persisted {a} h (next {b} {c} d before done) =
        let e = new_event event_name b.root d in
        let (_, grown, moved) = apply_change_ok transition root_error event_name b c d done in
        load-grown a b c e refl grown (
          load-append a (persisted b) b.root.events e c.state
            (load_from_history-mark_persisted h before) moved)
