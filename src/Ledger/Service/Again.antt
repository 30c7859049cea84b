-- ===== src/Ledger/Service/Again.antt =====
-- core/modules/ledger/application/service/ledger_service.go: RecordLedgerEvents on events that it has
-- recorded already.
use wechat_clone.Base.{
  ◌≡◌, refl, sym, ◌∙◌, inl, inr, ◌+◌, String, Bool, false, none, some, List, [], ◌∷◌, ◌==◌,
  Bool-cases, eq_iff, length,
}
use wechat_clone.Base.Text.{trim_space}
use wechat_clone.Base.Maps.{Map, lookup, lookup-insert, lookup-insert_self}
use wechat_clone.Base.Results.{ok}
use wechat_clone.Event.{Event}
use wechat_clone.Ledger.Posting.{LedgerAccountPosting, LedgerEvent, posting_mismatch}
use wechat_clone.Ledger.Events.{preview_posting_from_event}
use wechat_clone.Ledger.Account.{
  LedgerAccountState, LedgerAccountAggregate, apply_posting_event, lookup_pending_posting, post,
}
use wechat_clone.Ledger.Account.Settles.{IsWellFormed, Books, record_posting_known}
use wechat_clone.Ledger.Account.Retry.{same_posting_refl, lookup_pending_posting-post}
use wechat_clone.Ledger.Service.Moves.{carried}
use wechat_clone.Ledger.Service.Record.{Progress, apply_events}
use wechat_clone.Ledger.Service.Applied.{All, Round, apply_events-Round, apply_posting_event-Books}

-- The posting that the event carries for the account is among those of the state.
pub record HasBooked (id : String) (e : LedgerEvent) (s : LedgerAccountState) : Type 0 where
  pub posting : LedgerAccountPosting
  pub carries : preview_posting_from_event id e ≡ ok (some posting)
  pub known : lookup_pending_posting s posting.transaction_id ≡ some posting

-- An account that has booked what an event carries does not book it again.
pub HasBooked-again :
    (a : LedgerAccountAggregate) (e : LedgerEvent)
    → HasBooked a.root.aggregate_id e a.state
    → apply_posting_event a e ≡ (a, ok false)
unfolding apply_posting_event
HasBooked-again a e h =
    rw (h.carries, apply_posting_event)
      (record_posting_known a h.posting h.posting posting_mismatch (some e) h.known
        ∙ rw (same_posting_refl h.posting) refl)

pending_kept :
    (s : LedgerAccountState) (id : String) (p : LedgerAccountPosting) (t : String)
    (q : LedgerAccountPosting)
    → lookup p.transaction_id s.posted_transactions ≡ none
    → lookup_pending_posting s t ≡ some q
    → lookup_pending_posting (post s id p) t ≡ some q
unfolding lookup_pending_posting post
pending_kept s id p t q fresh h = elim (Bool-cases (trim_space t == "")) [
  | inl e ↦ absurd (cc (rw e at h))
  | inr e ↦
      let there : lookup (trim_space t) s.posted_transactions ≡ some q = rw e at h in
      rw (e, lookup-insert (trim_space t) p.transaction_id p s.posted_transactions)
        (elim (Bool-cases (p.transaction_id == trim_space t)) [
          | inl same ↦
              let k = (eq_iff p.transaction_id (trim_space t)).0 same in
              absurd (cc (sym fresh ∙ (rw (← k) at there)))
          | inr other ↦ rw other there
        ])
]

-- A booking keeps what was booked before, since its transaction is new.
Books-kept :
    (a b : LedgerAccountAggregate) (p : LedgerAccountPosting) (e f : LedgerEvent) (id : String)
    → Books a p e b
    → HasBooked id f a.state
    → HasBooked id f b.state
Books-kept a b p e f id books h = record {
  posting = h.posting;
  carries = h.carries;
  known = rw books.booked (
      pending_kept a.state a.root.aggregate_id p h.posting.transaction_id h.posting books.fresh
        h.known);
}

Books-HasBooked :
    (a b : LedgerAccountAggregate) (p : LedgerAccountPosting) (e : LedgerEvent)
    → preview_posting_from_event a.root.aggregate_id e ≡ ok (some p)
    → Books a p e b
    → HasBooked a.root.aggregate_id e b.state
Books-HasBooked a b p e f books = record {
  posting = p;
  carries = f;
  known = rw books.booked (lookup_pending_posting-post a.state a.root.aggregate_id p books.normal);
}

-- Whether the account of the map has booked what the event carries for it.
abbrev pub BookedIn : Map LedgerAccountAggregate → Event LedgerEvent → Type 0
BookedIn m e =
    (a : LedgerAccountAggregate) × (lookup (trim_space e.aggregate_id) m ≡ some a)
    × HasBooked (trim_space e.aggregate_id) e.event_data a.state

abbrev pub AllBookedIn : Map LedgerAccountAggregate → List (Event LedgerEvent) → Type 0
AllBookedIn m [] = Unit
AllBookedIn m (e ∷ es) = BookedIn m e × AllBookedIn m es

module _ (P : String → LedgerAccountAggregate → Type 0)
    (keeps : (id : String) (a b : LedgerAccountAggregate) (e : LedgerEvent) (t : Bool)
      → P id a
      → apply_posting_event a e ≡ (b, ok t)
      → P id b)
    (gives : (id : String) (a : LedgerAccountAggregate)
      → P id a
      → IsWellFormed a × (a.root.aggregate_id ≡ id)) where
  module _ (p q : Progress) (e : Event LedgerEvent) (es : List (Event LedgerEvent))
      (r : Round P keeps gives p q e es) where
    first_booking :
        (x : LedgerAccountPosting) × (carried e ≡ ok (some x))
        × Books r.before x e.event_data r.after
    first_booking =
        let (x, f, books) = apply_posting_event-Books r.before r.after e.event_data r.well r.ran in
        (x, rw (← r.named) f, books)

    Round-kept : (f : Event LedgerEvent) → BookedIn p.accounts f → BookedIn r.next.accounts f
    Round-kept f (x, there, booked) =
        let k = trim_space e.aggregate_id in
        let j = trim_space f.aggregate_id in
        rw r.accounts (elim (Bool-cases (k == j)) [
          | inl e' ↦
              let there' = rw (← (eq_iff k j).0 e') at there in
              let same : x ≡ r.before = cc (there', r.found) in
              let (y, _, books) = first_booking in
              (
                r.after,
                rw (lookup-insert j k r.after p.accounts, e') refl,
                Books-kept r.before r.after y e.event_data f.event_data j books (rw same at booked),
              )
          | inr n ↦ (x, rw (lookup-insert j k r.after p.accounts, n) there, booked)
        ])

    Round-BookedIn : BookedIn r.next.accounts e
    Round-BookedIn =
        let (y, f, books) = first_booking in
        rw r.accounts (
          r.after,
          lookup-insert_self (trim_space e.aggregate_id) r.after p.accounts,
          rw (← r.named) (Books-HasBooked r.before r.after y e.event_data (rw r.named f) books),
        )

  -- What an account of the map has booked stays booked while events are applied.
  apply_events-kept :
      (p q : Progress) (es : List (Event LedgerEvent)) (f : Event LedgerEvent)
      → apply_events p es ≡ ok q
      → q.applied_count ≡ p.applied_count + length es
      → All P keeps gives p.accounts
      → BookedIn p.accounts f
      → BookedIn q.accounts f
  unfolding apply_events
  apply_events-kept p q [] f h n all there = let same : q ≡ p = cc h in rw same there
  apply_events-kept p q (e ∷ es) f h n all there =
      let r = apply_events-Round P keeps gives p q e es h n all in
      apply_events-kept r.next q es f r.rest r.count r.all (Round-kept p q e es r f there)

  -- Where every event is applied, every event is booked in the end.
  pub apply_events-AllBookedIn :
      (p q : Progress) (es : List (Event LedgerEvent))
      → apply_events p es ≡ ok q
      → q.applied_count ≡ p.applied_count + length es
      → All P keeps gives p.accounts
      → AllBookedIn q.accounts es
  unfolding apply_events
  apply_events-AllBookedIn p q [] h n all = tt
  apply_events-AllBookedIn p q (e ∷ es) h n all =
      let r = apply_events-Round P keeps gives p q e es h n all in
      (
        apply_events-kept r.next q es e r.rest r.count r.all (Round-BookedIn p q e es r),
        apply_events-AllBookedIn r.next q es r.rest r.count r.all,
      )
