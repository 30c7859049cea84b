-- ===== src/Event/Numbering.antt =====
-- core/shared/pkg/event/aggregate_root.go: how ApplyChange numbers the pending events.
use wechat_clone.Base.{
  ℕ, ◌+◌, ◌≡◌, refl, ◌≢◌, String, Option, none, some, List, [], ◌∷◌, ◌++◌, arith, eq_iff, ◌==◌, inl,
  inr, Bool-cases,
}
use wechat_clone.Event.{RootError, Event, Aggregate, last_version, new_event, apply_change}

module _ {D : Type 0} where
  -- The events follow the version `v`, each numbered one above the one before.
  abbrev pub IsNumbered : ℕ → List (Event D) → Type 0
  IsNumbered v [] = Unit
  IsNumbered v (e ∷ es) = (e.version ≡ v + 1) × IsNumbered e.version es

  pub last_version-append :
      (v : ℕ) (es : List (Event D)) (e : Event D) → last_version v (es ++ (e ∷ [])) ≡ e.version
  unfolding last_version
  last_version-append v [] e = refl
  last_version-append v (x ∷ es) e = last_version-append x.version es e

  IsNumbered-append :
      (v : ℕ) (es : List (Event D)) (e : Event D)
      → IsNumbered v es
      → e.version ≡ last_version v es + 1
      → IsNumbered v (es ++ (e ∷ []))
  unfolding last_version
  IsNumbered-append v [] e h n = (n, tt)
  IsNumbered-append v (x ∷ es) e h n = (h.0, IsNumbered-append x.version es e h.1 n)

module _ {D S E : Type 0} (transition : S → Event D → S × Option E) (root_error : RootError → E)
    (event_name : D → String) where
  -- Every call of ApplyChange, also one that fails, keeps the pending events numbered without a
  -- gap from the stored version.
  pub apply_change-IsNumbered :
      (a : Aggregate D S) (d : Option D)
      → IsNumbered a.root.version a.root.events
      → let b = (apply_change transition root_error event_name a d).0 in
        IsNumbered b.root.version b.root.events
  unfolding apply_change
  apply_change-IsNumbered a none h = h
  apply_change-IsNumbered a (some d) h = elim (Bool-cases (a.root.aggregate_id == "")) [
    | inl e ↦ rw e h
    | inr e ↦ elim (Bool-cases (event_name d == "")) [
      | inl f ↦ rw (e, f) h
      | inr f ↦
          rw (e, f)
            (IsNumbered-append a.root.version a.root.events (new_event event_name a.root d) h
              (unfold new_event in refl))
    ]
  ]

  -- A successful call raises the current version by one and keeps the identity, the stored
  -- versions and the type; it appends exactly one event.
  pub apply_change_ok :
      (a b : Aggregate D S) (d : D)
      → apply_change transition root_error event_name a (some d) ≡ (b, none)
      → (a.root.aggregate_id ≢ "")
        × (b.root
            ≡ record (a.root) { events = a.root.events ++ (new_event event_name a.root d ∷ []) })
        × (transition a.state (new_event event_name a.root d) ≡ (b.state, none))
  unfolding apply_change
  apply_change_ok a b d h = ground (arith, eq_iff a.root.aggregate_id "", eq_iff (event_name d) "")
