-- ===== src/Ledger/Service/Redelivered.antt =====
-- core/modules/ledger/application/service/ledger_service.go: RecordLedgerEvents on the events of a
-- message that is delivered again.
use wechat_clone.Base.{
  ◌≡◌, refl, sym, ◌∙◌, inl, inr, String, true, false, none, some, List, [], ◌∷◌, ◌==◌, arith,
  Bool-cases, Option-cases, eq_refl, length,
}
use wechat_clone.Base.Text.{trim_space, trim_space_idem}
use wechat_clone.Base.Maps.{Map, lookup, insert, lookup-insert}
use wechat_clone.Base.Results.{ok, chain-Passed}
use wechat_clone.Event.{Event}
use wechat_clone.Ledger.Posting.{LedgerEvent, one_of}
use wechat_clone.Ledger.Account.{LedgerAccountAggregate, apply_posting_event}
use wechat_clone.Ledger.Service.Record.{
  Progress, Repository, advanced, applied_to, apply_event, apply_events, settled,
  load_ledger_account, load_ledger_accounts, save_accounts, settle_events, record_ledger_events,
}
use wechat_clone.Ledger.Service.Order.{
  addressed, apply_events-found, apply_events-IsOrdered, apply_events-ordered,
  distinct_accounts-seen,
}
use wechat_clone.Ledger.Service.Applied.{apply_events-All}
use wechat_clone.Ledger.Service.Repeated.{HavePosted, HavePosted-same, lookup-insert_again}
use wechat_clone.Ledger.Service.Again.{HasBooked-again, AllBookedIn, apply_events-AllBookedIn}
use wechat_clone.Ledger.Service.Stored.{
  IsStore, Opened, Opened-kept, AreFresh, load_ledger_accounts-AreFresh,
}
use wechat_clone.Ledger.Service.Saved.{IsSaved, save_accounts-stored}
use wechat_clone.Ledger.Service.Balances.{
  begun, IsLooped, loop_ready, gives, no_accounts, unwritten, written, record_ledger_events-Outcome,
}

apply_event_of_posted :
    (p : Progress) (e : Event LedgerEvent) (a : LedgerAccountAggregate)
    → lookup (trim_space e.aggregate_id) p.accounts ≡ some a
    → apply_posting_event a e.event_data ≡ (a, ok false)
    → apply_event p e ≡ ok (advanced p (trim_space e.aggregate_id) a false)
unfolding apply_event applied_to
apply_event_of_posted p e a f r = rw (f, apply_event, r) refl

-- Events that are posted already go through the loop, and none of them counts.
apply_events_of_posted :
    (p : Progress) (es : List (Event LedgerEvent))
    → HavePosted p.accounts es
    → (q : Progress) × (apply_events p es ≡ ok q) × (q.applied_count ≡ p.applied_count)
unfolding apply_events
apply_events_of_posted p [] h = (p, refl, refl)
apply_events_of_posted p (e ∷ es) ((a, f, r), h) =
    let k = trim_space e.aggregate_id in
    let (q, run, count) = apply_events_of_posted (advanced p k a false) es (
      HavePosted-same p.accounts (insert k a p.accounts) es
        (λ j. sym (lookup-insert_again j k a p.accounts f)) h) in
    (q, rw (apply_event_of_posted p e a f r) run, count)

-- Two maps with the same keys.
abbrev SameKeys : Map LedgerAccountAggregate → Map LedgerAccountAggregate → Type 0
SameKeys m n =
    (j : String)
    → (lookup j m ≡ none → lookup j n ≡ none)
      × ((a : LedgerAccountAggregate)
          → lookup j m ≡ some a
          → (b : LedgerAccountAggregate) × (lookup j n ≡ some b))

insert-SameKeys :
    (m n : Map LedgerAccountAggregate) (k : String) (a b : LedgerAccountAggregate)
    → SameKeys m n
    → SameKeys (insert k a m) (insert k b n)
insert-SameKeys m n k a b same j =
    rw (lookup-insert j k a m, lookup-insert j k b n)
      (elim (Bool-cases (k == j)) [
        | inl e ↦ rw e (λ h. absurd (cc h), λ x h. (b, refl))
        | inr e ↦ rw e (same j)
      ])

-- Accounts that could be loaded before can be loaded again.
load_ledger_accounts_again :
    {S : Type 0} (repo : Repository S) (s s' : S)
    (loads : (k : String) (a : LedgerAccountAggregate)
      → trim_space k ≡ k
      → load_ledger_account repo s k ≡ ok a
      → (b : LedgerAccountAggregate) × (load_ledger_account repo s' k ≡ ok b))
    (ids : List String) (acc acc' m : Map LedgerAccountAggregate)
    → SameKeys acc acc'
    → load_ledger_accounts repo s ids acc ≡ ok m
    → (m' : Map LedgerAccountAggregate) × (load_ledger_accounts repo s' ids acc' ≡ ok m')
      × SameKeys m m'
unfolding load_ledger_accounts
load_ledger_accounts_again repo s s' loads [] acc acc' m same h =
    let e : m ≡ acc = cc h in (acc', refl, rw e same)
load_ledger_accounts_again repo s s' loads (id ∷ ids) acc acc' m same h =
    let k = trim_space id in
    elim (Bool-cases (k == "")) [
      | inl blank ↦
          rw blank (load_ledger_accounts_again repo s s' loads ids acc acc' m same (rw blank at h))
      | inr given ↦ elim (Option-cases (lookup k acc)) [
        | inr (a, known) ↦
            let (b, there) = (same k).1 a known in
            rw (given, there)
              (load_ledger_accounts_again repo s s' loads ids acc acc' m same
                (rw (given, known) at h))
        | inl new ↦
            let made = chain-Passed (load_ledger_account repo s k) _ (rw (given, new) at h) in
            let (b, l) = loads k made.value (trim_space_idem id) made.first in
            rw (given, (same k).0 new, l)
              (load_ledger_accounts_again repo s s' loads ids (insert k made.value acc)
                (insert k b acc') m (insert-SameKeys acc acc' k made.value b same) made.rest)
      ]
    ]

module _ {S : Type 0} (repo : Repository S) (laws : IsStore repo) (s s' : S) where
  -- The accounts of a map are stored as they are there, or as they were stored before.
  record AreWritten (p : Progress) : Type 0 where
    saved_again : (id : String) → one_of id p.save_order ≡ true → IsSaved repo s' p.accounts id
    left :
        (id : String)
        → one_of id p.save_order ≡ false
        → load_ledger_account repo s' id ≡ load_ledger_account repo s id

  module _ (p : Progress) (w : AreWritten p) where
    still_loads :
        (k : String) (a : LedgerAccountAggregate)
        → trim_space k ≡ k
        → load_ledger_account repo s k ≡ ok a
        → (b : LedgerAccountAggregate) × (load_ledger_account repo s' k ≡ ok b)
    still_loads k a t l = elim (Bool-cases (one_of k p.save_order)) [
      | inl e ↦ let saved = w.saved_again k e in (saved.again, saved.loaded)
      | inr e ↦ (a, w.left k e ∙ l)
    ]

    -- What was booked and saved is posted on the accounts that are loaded afterwards.
    AllBookedIn-HavePosted :
        (es : List (Event LedgerEvent)) (m : Map LedgerAccountAggregate)
        → AreFresh repo laws s' m
        → ((id : String) → addressed id es ≡ true → one_of id p.save_order ≡ true)
        → ((id : String)
            → addressed id es ≡ true
            → (b : LedgerAccountAggregate) × (lookup id m ≡ some b))
        → AllBookedIn p.accounts es
        → HavePosted m es
    AllBookedIn-HavePosted [] m fresh order found booked = tt
    AllBookedIn-HavePosted (e ∷ es) m fresh order found ((a, f, h), rest) =
        let k = trim_space e.aggregate_id in
        let here : addressed k (e ∷ es) ≡ true = rw (eq_refl k) refl in
        let saved = w.saved_again k (order k here) in
        let (b, there) = found k here in
        let (t, l) = fresh k b there in
        let named = (laws.opened s' k b t l).1 in
        let same : b.state ≡ a.state = cc (l, saved.loaded, saved.same, saved.found, f) in
        (
          (b, there, HasBooked-again b e.event_data (rw (named, same) h)),
          AllBookedIn-HavePosted es m fresh (λ id t. order id (later id t))
              (λ id t. found id (later id t)) rest,
        )
      where
        later : (id : String) → addressed id es ≡ true → addressed id (e ∷ es) ≡ true
        later id t = rw t (ground arith)

module _ {S : Type 0} (repo : Repository S) (laws : IsStore repo) where
  settle_again :
      (s s' : S) (es : List (Event LedgerEvent)) (p : Progress)
      → IsLooped repo s es p
      → p.applied_count ≡ length es
      → save_accounts repo s p.accounts p.save_order ≡ (s', none)
      → settle_events repo s' es ≡ ok none
  unfolding settle_events settled one_of
  settle_again s s' es p st count saves =
      let first = begun st.accounts st.seen in
      let opened = loop_ready repo laws s es p st in
      let all =
        apply_events-All (Opened repo s) (Opened-kept repo laws s) (gives repo laws s) first p es
          st.applied opened in
      let order =
        apply_events-IsOrdered first p es st.applied
          (record { distinct = tt; apart = λ j t. absurd (cc t) }) in
      let stored =
        save_accounts-stored repo laws s s' p.accounts p.save_order saves order.distinct
          (λ j a t f. all j a f) in
      let w : AreWritten repo laws s s' p = record {
        saved_again = λ id. (stored id).0;
        left = λ id. (stored id).1;
      } in
      let booked =
        apply_events-AllBookedIn (Opened repo s) (Opened-kept repo laws s) (gives repo laws s) first
          p es st.applied (count ∙ omega arith) opened in
      let (m, loads, keys) =
        load_ledger_accounts_again repo s s' (still_loads repo laws s s' p w) st.ids [] []
          st.accounts (λ j. (λ h. h, λ a h. absurd (no_accounts j a h))) st.loaded in
      let fresh =
        load_ledger_accounts-AreFresh repo laws s' st.ids [] m loads
          (λ j a f. absurd (no_accounts j a f)) in
      let (q, run, none_applied) = apply_events_of_posted (begun m st.seen) es (
        AllBookedIn-HavePosted repo laws s s' p w es m fresh
          (λ id t.
            apply_events-ordered first p es id st.applied
              (inl (distinct_accounts-seen [] st.seen [] st.ids es id st.distinct t)) t)
          (λ id t. let (a, f) = apply_events-found first p es id st.applied t in (keys id).1 a f)
          booked) in
      rw (st.distinct, loads, run, none_applied) refl

  -- On a repository that keeps the laws IsStore, RecordLedgerEvents on events that it has recorded
  -- without an error records nothing more: it returns no error either, and leaves the database as it
  -- is.
  pub record_ledger_events_again :
      (s s' : S) (es : List (Event LedgerEvent))
      → record_ledger_events repo s es ≡ (s', ok tt)
      → record_ledger_events repo s' es ≡ (s', ok tt)
  unfolding record_ledger_events
  record_ledger_events_again s s' [] h = refl
  record_ledger_events_again s s' (e ∷ es) h =
      elim (record_ledger_events-Outcome repo laws s s' (e ∷ es) h) [
        | unwritten same _ ↦ rw same (rw same at h)
        | written p st count saves ↦
            rw (settle_again s s' (e ∷ es) p st count saves, record_ledger_events) refl
      ]
