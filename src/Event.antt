-- ===== src/Event.antt =====
-- core/shared/pkg/event: the event-sourced aggregate root (event.go, aggregate_root.go and
-- InitAggregate of convention.go). Go embeds AggregateRoot in each aggregate; here an aggregate
-- is its root and the state of its own. The method Transition, which the aggregate implements, is
-- the parameter `transition`; the reflective EventName is the parameter `event_name`.
-- Versions are natural numbers: the code counts them up from 0.
pub mod Numbering
pub mod Replay
use wechat_clone.Base.{
  ℕ, ◌+◌, String, Option, none, some, List, [], ◌∷◌, ◌++◌, ◌==◌, if◌then◌else◌, ◌&&◌, not,
}
use wechat_clone.Base.Text.{trim_space}
use wechat_clone.Base.Results.{Result, ok, err, ◌>>=◌, ◌>>◌, fail_if}

-- The errors of this package.
pub data RootError : Type 0 where
  agg_existed id_empty aggregate_type_empty : RootError
  missing_aggregate_id nil_event_data event_name_empty unsupported_event_type : RootError

pub record Event (D : Type 0) : Type 0 where
  pub aggregate_id : String
  pub aggregate_type : String
  pub version : ℕ
  pub event_name : String
  pub event_data : D

pub record AggregateRoot (D : Type 0) : Type 0 where
  pub aggregate_id : String
  pub aggregate_type : String
  pub version : ℕ
  pub base_version : ℕ
  pub events : List (Event D)

-- An aggregate: what it embeds, and its own fields.
pub record Aggregate (D S : Type 0) : Type 0 where
  pub root : AggregateRoot D
  pub state : S

module _ {D : Type 0} where
  -- The root as Go's zero value.
  abbrev pub zero_root : AggregateRoot D
  zero_root = record {
    aggregate_id = "";
    aggregate_type = "";
    version = 0;
    base_version = 0;
    events = [];
  }

  -- The version of the last event, and the stored version where there is none.
  unfoldable pub last_version : ℕ → List (Event D) → ℕ
  last_version v [] = v
  last_version v (e ∷ es) = last_version e.version es

  -- `Version()`
  unfoldable pub current_version : AggregateRoot D → ℕ
  unfolding last_version
  current_version r = last_version r.version r.events

  unfoldable pub next_version : AggregateRoot D → ℕ
  next_version r = current_version r + 1

  unfoldable pub set_id : AggregateRoot D → String → Result RootError (AggregateRoot D)
  set_id r id =
      fail_if (id == "") id_empty
      >> fail_if (not (r.aggregate_id == "") && not (r.aggregate_id == id)) agg_existed
      >> ok (record r { aggregate_id = id })

  -- `InitAggregate`, with the name that reflection finds for the aggregate's type.
  unfoldable pub init_aggregate :
      AggregateRoot D → String → String → Result RootError (AggregateRoot D)
  unfolding set_id
  init_aggregate r type_name id =
      fail_if (type_name == "") aggregate_type_empty
      >> set_id (record r { aggregate_type = type_name }) (trim_space id)

  -- `MarkPersisted`
  unfoldable pub mark_persisted : AggregateRoot D → AggregateRoot D
  unfolding last_version
  mark_persisted r = elim r.events [
    | [] ↦ r
    | e ∷ es ↦ record r {
      version = last_version e.version es;
      base_version = last_version e.version es;
      events = [];
    }
  ]

  -- `SetInternal`
  unfoldable pub set_internal : AggregateRoot D → String → ℕ → ℕ → AggregateRoot D
  set_internal r id base v = record r {
    aggregate_id = id;
    base_version = base;
    version = v;
    events = [];
  }

  -- The event that `ApplyChangeWithMetadata` builds.
  unfoldable pub new_event : (D → String) → AggregateRoot D → D → Event D
  unfolding next_version current_version
  new_event event_name r d = record {
    aggregate_id = r.aggregate_id;
    aggregate_type = r.aggregate_type;
    version = next_version r;
    event_name = event_name d;
    event_data = d;
  }

  -- What a loaded event does to the root.
  abbrev pub loaded : AggregateRoot D → Event D → AggregateRoot D
  loaded r e = record r {
    aggregate_id = e.aggregate_id;
    version = e.version;
    base_version = e.version;
  }

module _ {D S E : Type 0} (transition : S → Event D → S × Option E) where
  -- `LoadFromHistory`: an error stops the loop, and what was loaded stays.
  unfoldable pub load_from_history : Aggregate D S → List (Event D) → Aggregate D S × Option E
  load_from_history a [] = (a, none)
  load_from_history a (e ∷ es) =
      let (s, error) = transition a.state e in
      elim error [
        | some x ↦ (record a { state = s }, some x)
        | none ↦ load_from_history (record { root = loaded a.root e; state = s }) es
      ]

  module _ (root_error : RootError → E) (event_name : D → String) where
    -- The event is appended first and the transition runs then: an error of the transition leaves
    -- the event among the pending ones.
    unfoldable pub append_and_transition : Aggregate D S → D → Aggregate D S × Option E
    append_and_transition a d =
        let e = new_event event_name a.root d in
        let (s, error) = transition a.state e in
        (record { root = record (a.root) { events = a.root.events ++ (e ∷ []) }; state = s }, error)

    -- `ApplyChange` and `ApplyChangeWithMetadata`; `none` is a nil `data`.
    unfoldable pub apply_change : Aggregate D S → Option D → Aggregate D S × Option E
    unfolding append_and_transition
    apply_change a none = (
      a,
      some
          (root_error (if a.root.aggregate_id == "" then missing_aggregate_id else nil_event_data)),
    )
    apply_change a (some d) =
        if a.root.aggregate_id == ""
        then (a, some (root_error missing_aggregate_id))
        else if event_name d == ""
        then (a, some (root_error event_name_empty))
        else append_and_transition a d
