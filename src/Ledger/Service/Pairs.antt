-- ===== src/Ledger/Service/Pairs.antt =====
-- core/modules/ledger/application/service/payment_event_service.go: the two events of one movement
-- are its two sides.
use wechat_clone.Base.{◌≡◌, sym, ap, ◌∙◌, String, true, false, some, List, [], ◌∷◌, arith}
use wechat_clone.Base.Int.{
  ℤ, pos, neg_ℤ, neg64, ◌≤ℤ◌, IsInt64, ltb_ℤ, wrap64, neg64_negative, wrap64-IsInt64,
}
use wechat_clone.Base.Text.{trim_space, trim_space_idem}
use wechat_clone.Base.Time.{Time, time_or_now}
use wechat_clone.Base.Text.Case.{upper_trimmed}
use wechat_clone.Base.Results.{ok, chain-Passed, map_err_ok}
use wechat_clone.Event.{Event}
use wechat_clone.Ledger.Posting.{
  LedgerAccountPosting, LedgerEvent, PaymentKind, kind_name, normalized, new_payment_posting,
}
use wechat_clone.Ledger.Posting.Normal.{new_payment_posting-IsNormal}
use wechat_clone.Ledger.Events.{kind_of_reference}
use wechat_clone.Ledger.Events.RoundTrip.{
  HasSignOf, is_debit, preview-new_ledger_payment_event, kind_of_reference-trim_space,
}
use wechat_clone.Ledger.Service.{
  Transfer, debit_input, credit_input, posting_rejected, posting_panic, new_ledger_account_event,
  new_ledger_account_event_from_posting, supported_event, posting_or_panic, events_from_postings,
  events_from_booking, debit_first_events, credit_first_events,
}
use wechat_clone.Ledger.Service.Moves.{
  carried, Move, Sides, Carry, nothing, pay_first, receive_first,
}

-- The event of a posting that the constructor has made of `input` is addressed to the account, and
-- carries the posting.
supported_event-carried :
    (id : String) (input p : LedgerAccountPosting) (k : PaymentKind) (e : Event LedgerEvent)
    → input.reference_type ≡ kind_name k
    → HasSignOf k input.amount_delta
    → IsInt64 input.amount_delta
    → new_payment_posting id input ≡ ok p
    → supported_event id p ≡ ok e
    → (e.aggregate_id ≡ id) × (carried e ≡ ok (some p)) × (p ≡ normalized input)
unfolding supported_event new_ledger_account_event_from_posting new_ledger_account_event normalized
supported_event-carried id input p k e named sign v made h =
    let (n, same) = new_payment_posting-IsNormal id input p made in
    let kind : kind_of_reference p.reference_type ≡ some k =
      rw (same, named) (kind_of_reference-trim_space k) in
    let (event, back) =
      preview-new_ledger_payment_event (trim_space id) p k (trim_space_idem id) n (rw same v) kind
        (rw same sign) in
    let here = rw (event, new_ledger_account_event_from_posting, supported_event) at h in
    (cc here, cc (here, back), same)

-- The move that a transfer asks for.
abbrev pub move_of : Transfer → Move
move_of t = record {
  source = trim_space t.debit_account_id;
  target = trim_space t.credit_account_id;
  currency = upper_trimmed t.currency;
  amount = t.amount;
}

-- A transfer of a positive int64 amount, under event names of which the first takes money from an
-- account and the second brings money to one.
pub record IsTransfer (t : Transfer) : Type 0 where
  pub debit_kind : PaymentKind
  pub credit_kind : PaymentKind
  pub debit_named : t.debit_event_name ≡ kind_name debit_kind
  pub credit_named : t.credit_event_name ≡ kind_name credit_kind
  pub debits : is_debit debit_kind ≡ true
  pub credits : is_debit credit_kind ≡ false
  pub positive : pos 1 ≤ℤ t.amount
  pub int64 : IsInt64 t.amount

neg64_of_positive : (m : ℤ) → IsInt64 m → pos 1 ≤ℤ m → neg64 m ≡ neg_ℤ m
unfolding neg64 wrap64 neg_ℤ
neg64_of_positive m h p = ground arith

neg64-IsInt64 : (m : ℤ) → IsInt64 (neg64 m)
unfolding neg64
neg64-IsInt64 m = wrap64-IsInt64 (neg_ℤ m)

positive_not_negative : (m : ℤ) → pos 1 ≤ℤ m → ltb_ℤ m (pos 0) ≡ false
positive_not_negative m p = ground arith

module _ (t : Transfer) (w : IsTransfer t) where
  made-Sides :
      (d c : LedgerAccountPosting) (e f : Event LedgerEvent)
      → new_payment_posting t.debit_account_id (debit_input t) ≡ ok d
      → new_payment_posting t.credit_account_id (credit_input t) ≡ ok c
      → supported_event t.debit_account_id d ≡ ok e
      → supported_event t.credit_account_id c ≡ ok f
      → Sides (move_of t) e f
  unfolding normalized
  made-Sides d c e f hd hc he hf =
      let (owner, carries, shape) =
        supported_event-carried t.debit_account_id (debit_input t) d w.debit_kind e w.debit_named
          (neg64_negative t.amount w.int64 w.positive ∙ sym w.debits) (neg64-IsInt64 t.amount) hd
          he in
      let (owner', carries', shape') =
        supported_event-carried t.credit_account_id (credit_input t) c w.credit_kind f
          w.credit_named (positive_not_negative t.amount w.positive ∙ sym w.credits) w.int64 hc
          hf in
      record {
        out_posting = d;
        in_posting = c;
        pays = record {
          owner = ap trim_space owner;
          posting = carries;
          counterparty = cc shape;
          currency = cc shape;
          amount = cc (shape, neg64_of_positive t.amount w.int64 w.positive);
        };
        receives = record {
          owner = ap trim_space owner';
          posting = carries';
          counterparty = cc shape';
          currency = cc shape';
          amount = cc shape';
        };
        transaction = cc (shape, shape');
        reference = cc (shape, shape');
      }

  pub debit_first_events-Carry :
      (es : List (Event LedgerEvent)) → debit_first_events t ≡ ok es → Carry es (move_of t ∷ [])
  unfolding debit_first_events posting_or_panic events_from_postings
  debit_first_events-Carry es h =
      let d = chain-Passed _ _ h in
      let c = chain-Passed _ _ d.rest in
      let e = chain-Passed _ _ c.rest in
      let more = chain-Passed _ _ e.rest in
      let f = chain-Passed _ _ more.first in
      let same : es ≡ e.value ∷ f.value ∷ [] = cc (more.rest, f.rest) in
      rw same (
        pay_first (move_of t) e.value f.value
          (made-Sides d.value c.value e.value f.value (map_err_ok posting_panic _ d.value d.first)
            (map_err_ok posting_panic _ c.value c.first) e.first f.first)
          nothing)

  pub credit_first_events-Carry :
      (es : List (Event LedgerEvent)) → credit_first_events t ≡ ok es → Carry es (move_of t ∷ [])
  unfolding credit_first_events posting_or_panic events_from_postings
  credit_first_events-Carry es h =
      let c = chain-Passed _ _ h in
      let d = chain-Passed _ _ c.rest in
      let f = chain-Passed _ _ d.rest in
      let more = chain-Passed _ _ f.rest in
      let e = chain-Passed _ _ more.first in
      let same : es ≡ f.value ∷ e.value ∷ [] = cc (more.rest, e.rest) in
      rw same (
        receive_first (move_of t) e.value f.value
          (made-Sides d.value c.value e.value f.value (map_err_ok posting_panic _ d.value d.first)
            (map_err_ok posting_panic _ c.value c.first) e.first f.first)
          nothing)

pub events_from_booking-Carry :
    (now : Time) (t : Transfer)
    → IsTransfer t
    → (es : List (Event LedgerEvent)) → events_from_booking now t ≡ ok es
    → Carry es (move_of t ∷ [])
unfolding events_from_booking
events_from_booking-Carry now given w es h =
    let t = record given { booked_at = time_or_now now given.booked_at } in
    let w' : IsTransfer t = record {
      debit_kind = w.debit_kind;
      credit_kind = w.credit_kind;
      debit_named = w.debit_named;
      credit_named = w.credit_named;
      debits = w.debits;
      credits = w.credits;
      positive = w.positive;
      int64 = w.int64;
    } in
    let d = chain-Passed _ _ h in
    let c = chain-Passed _ _ d.rest in
    let e = chain-Passed _ _ c.rest in
    let f = chain-Passed _ _ e.rest in
    let same : es ≡ e.value ∷ f.value ∷ [] = cc f.rest in
    rw same (
      pay_first (move_of t) e.value f.value
        (made-Sides t w' d.value c.value e.value f.value
          (map_err_ok posting_rejected _ d.value d.first)
          (map_err_ok posting_rejected _ c.value c.first) e.first f.first)
        nothing)
