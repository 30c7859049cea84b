-- ===== src/Ledger/Service/Deliver.antt =====
-- core/modules/ledger/application/service/payment_event_service.go: the five methods, from the
-- event of a payment to the stored balances.
use wechat_clone.Base.{◌≡◌, refl, sym, ap, ◌∙◌, inl, inr, String, List}
use wechat_clone.Base.Int.{ℤ, pos, ◌+ℤ◌, wrap64, int_laws, wrap64-add_left}
use wechat_clone.Base.Text.Case.{upper_trimmed}
use wechat_clone.Base.Time.{Time}
use wechat_clone.Base.Results.{Result, ok, err}
use wechat_clone.Event.{Event}
use wechat_clone.Ledger.Posting.{LedgerEvent}
use wechat_clone.Ledger.Service.{
  ServiceError, PaymentEventService, Delivery, new_payment_event_service, ledger_events,
}
use wechat_clone.Ledger.Service.Meaning.{IsSound}
use wechat_clone.Ledger.Service.Undo.{Undoes, ledger_events_cancel}
use wechat_clone.Ledger.Service.Record.{RecordError, Repository, record_ledger_events}
use wechat_clone.Ledger.Service.Stored.{IsStore, stored_balance}
use wechat_clone.Ledger.Service.Balances.{record_ledger_events_moves}

pub data DeliveryError : Type 0 where
  not_booked : ServiceError → DeliveryError
  not_recorded : RecordError → DeliveryError

abbrev pub recorded :
    {S : Type 0} → S × Result RecordError (Unit {0}) → S × Result DeliveryError (Unit {0})
recorded (s, ok _) = (s, ok tt)
recorded (s, err x) = (s, err (not_recorded x))

-- `HandleWithdrawalRequested`, `HandleSucceeded`, `HandleFailed`, `HandleRefunded` and
-- `HandleChargeback`. Two of them return at once where there are no events, for which
-- RecordLedgerEvents does nothing either.
unfoldable pub deliver :
    {S : Type 0}
    → Repository S
    → PaymentEventService
    → Time
    → S
    → Delivery
    → S × Result DeliveryError (Unit {0})
deliver repo service now s d = elim (ledger_events service now d) [
  | err x ↦ (s, err (not_booked x))
  | ok es ↦ recorded (record_ledger_events repo s es)
]

-- What a delivery has done that changed the database without an error.
pub record Delivers {S : Type 0} (repo : Repository S) (service : PaymentEventService) (now : Time)
    (s s' : S) (d : Delivery) : Type 0 where
  pub events : List (Event LedgerEvent)
  pub made : ledger_events service now d ≡ ok events
  pub written : record_ledger_events repo s events ≡ (s', ok tt)

pub deliver-Delivers :
    {S : Type 0} (repo : Repository S) (service : PaymentEventService) (now : Time) (s s' : S)
    (d : Delivery)
    → deliver repo service now s d ≡ (s', ok tt)
    → Delivers repo service now s s' d
unfolding deliver
deliver-Delivers {S} repo service now s s' d h = go (ledger_events service now d) refl
  where
    close :
        (es : List (Event LedgerEvent)) (r : S × Result RecordError (Unit {0}))
        → ledger_events service now d ≡ ok es
        → record_ledger_events repo s es ≡ r
        → Delivers repo service now s s' d
    close es (t, ok _) f g =
        let same : t ≡ s' = cc (rw (f, deliver, g) at h) in
        record { events = es; made = f; written = cc (g, same) }
    close es (t, err x) f g = absurd (cc (rw (f, deliver, g) at h))

    go :
        (r : Result ServiceError (List (Event LedgerEvent)))
        → ledger_events service now d ≡ r
        → Delivers repo service now s s' d
    go (err x) f = absurd (cc (rw (f, deliver) at h))
    go (ok es) f = close es (record_ledger_events repo s es) f refl

-- Two changes that cancel.
round :
    (x y z d e : ℤ)
    → wrap64 y ≡ wrap64 (x +ℤ d)
    → wrap64 z ≡ wrap64 (y +ℤ e)
    → d +ℤ e ≡ pos 0
    → wrap64 z ≡ wrap64 x
round x y z d e h k zero =
    k
    ∙ sym (wrap64-add_left y e)
    ∙ ap (λ (v : ℤ). wrap64 (v +ℤ e)) h
    ∙ wrap64-add_left (x +ℤ d) e
    ∙ ap wrap64 {x = (x +ℤ d) +ℤ e} {y = x +ℤ (d +ℤ e)} (omega int_laws)
    ∙ rw zero (ap wrap64 {x = x +ℤ pos 0} {y = x} (omega int_laws))

module _ {S : Type 0} (repo : Repository S) (laws : IsStore repo) (fee_account : String)
    (now now' : Time) where
  -- On a repository that keeps the laws IsStore: where the service has taken a withdrawal's request
  -- and then its failure, or a top-up's success and then its refund or its chargeback, of the same
  -- accounts, currency, amount and fee, with amounts of int64 and a withdrawal's positive, each
  -- without an error and each with a change of the database, every stored balance of every account,
  -- as an int64, is in the end what it was in the beginning.
  pub deliver_undone :
      (s t u : S) (d d' : Delivery)
      → IsSound d
      → IsSound d'
      → Undoes d d'
      → deliver repo (new_payment_event_service fee_account) now s d ≡ (t, ok tt)
      → deliver repo (new_payment_event_service fee_account) now' t d' ≡ (u, ok tt)
      → ¬ (t ≡ s)
      → ¬ (u ≡ t)
      → (id c : String) → wrap64 (stored_balance repo u id c) ≡ wrap64 (stored_balance repo s id c)
  deliver_undone s t u d d' w w' undoes h h' changed changed' id c =
      let first = deliver-Delivers repo (new_payment_event_service fee_account) now s t d h in
      let second = deliver-Delivers repo (new_payment_event_service fee_account) now' t u d' h' in
      elim (record_ledger_events_moves repo laws s t first.events first.written) [
        | inl (same, _) ↦ absurd (changed same)
        | inr moved ↦ elim (record_ledger_events_moves repo laws t u second.events second.written) [
          | inl (same, _) ↦ absurd (changed' same)
          | inr back ↦
              round (stored_balance repo s id c) (stored_balance repo t id c)
                (stored_balance repo u id c) _ _ (moved id c) (back id c)
                (ledger_events_cancel id (upper_trimmed c) fee_account now now' d d' first.events
                  second.events w w' undoes first.made second.made)
        ]
      ]
