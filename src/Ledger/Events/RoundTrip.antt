-- ===== src/Ledger/Events/RoundTrip.antt =====
-- core/modules/ledger/domain/aggregate/ledger_account_aggregate.go: the event that a command
-- makes of a posting gives that posting back.
use wechat_clone.Base.{
  ◌≡◌, refl, ◌∙◌, String, Bool, true, false, some, arith, ◌==◌, eq_iff, List, [], ◌∷◌, Bool-cases,
  inl, inr, not, ◌&&◌, if◌then◌else◌,
}
use wechat_clone.Base.Int.{
  ℤ, pos, negsuc, ltb_ℤ, leb_ℤ, IsInt64, neg64, mul64, mul64-one, mul64-minus_one, neg64_twice,
}
use wechat_clone.Base.Text.{trim_space, trim_space_idem}
use wechat_clone.Base.Results.{Result, ok, err, ◌>>=◌}
use wechat_clone.Ledger.Posting.{
  LedgerAccountPosting, PaymentKind, TransferEventData, LedgerEvent, deposit_from_intent,
  withdraw_from_intent, deposit_from_refund, withdraw_from_refund, deposit_from_chargeback,
  withdraw_from_chargeback, reserve_withdrawal, receive_withdrawal_hold, release_withdrawal,
  withdraw_released_hold, payment_event, transferred_to_account, received_transfer, other_event,
  LedgerError, kind_name, normalized, new_payment_posting, new_transfer_out_posting,
  new_transfer_in_posting, transfer_posting, event_data,
}
use wechat_clone.Ledger.Posting.Normal.{
  IsNormal, new_payment_posting-IsNormal, new_payment_posting_of_IsNormal,
}
use wechat_clone.Ledger.Events.{
  find_kind, payment_kinds, direction, new_posting_from_payment_event, preview_posting_from_event,
  abs_int64, kind_of_reference, new_ledger_payment_event, reference_type_for_reversal,
  payment_refunded, payment_chargeback,
}

-- Whether the events of a kind take money from the account.
abbrev pub is_debit : PaymentKind → Bool
is_debit k = ltb_ℤ (direction k) (pos 0)

-- The amount of a posting has the sign that the events of its kind give it.
abbrev pub HasSignOf : PaymentKind → ℤ → Type 0
HasSignOf k delta = ltb_ℤ delta (pos 0) ≡ is_debit k

find_kind-kind_name :
    (t : String) (ks : List PaymentKind) (k : PaymentKind)
    → find_kind t ks ≡ some k
    → t ≡ kind_name k
unfolding find_kind
find_kind-kind_name t [] k h = cc
find_kind-kind_name t (x ∷ ks) k h = elim (Bool-cases (t == kind_name x)) [
  | inl e ↦ cc ((eq_iff t (kind_name x)).0 e, rw e at h)
  | inr e ↦ find_kind-kind_name t ks k (rw e at h)
]

kind_of_reference-kind_name :
    (t : String) (k : PaymentKind) → kind_of_reference t ≡ some k → t ≡ kind_name k
unfolding kind_of_reference
kind_of_reference-kind_name t k h = find_kind-kind_name t payment_kinds k h

credit_amount : (d : ℤ) → IsInt64 d → ltb_ℤ d (pos 0) ≡ false → mul64 (pos 1) (abs_int64 d) ≡ d
unfolding abs_int64
credit_amount d h s = rw s (mul64-one d h)

debit_amount : (d : ℤ) → IsInt64 d → ltb_ℤ d (pos 0) ≡ true → mul64 (negsuc 0) (abs_int64 d) ≡ d
unfolding abs_int64
debit_amount d h s = rw s (mul64-minus_one (neg64 d) ∙ neg64_twice d h)

-- The amount of an event, times its direction, is the amount of the posting; also for -2^63.
directed_amount :
    (k : PaymentKind) (d : ℤ) → IsInt64 d → HasSignOf k d → mul64 (direction k) (abs_int64 d) ≡ d
directed_amount deposit_from_intent d h s = credit_amount d h s
directed_amount deposit_from_refund d h s = credit_amount d h s
directed_amount deposit_from_chargeback d h s = credit_amount d h s
directed_amount receive_withdrawal_hold d h s = credit_amount d h s
directed_amount release_withdrawal d h s = credit_amount d h s
directed_amount withdraw_from_intent d h s = debit_amount d h s
directed_amount withdraw_from_refund d h s = debit_amount d h s
directed_amount withdraw_from_chargeback d h s = debit_amount d h s
directed_amount reserve_withdrawal d h s = debit_amount d h s
directed_amount withdraw_released_hold d h s = debit_amount d h s

-- The event of the kind `k` that carries the posting.
abbrev pub event_of : PaymentKind → LedgerAccountPosting → LedgerEvent
event_of k p = payment_event k (record {
  transaction_id = p.transaction_id;
  payment_id = p.reference_id;
  counterparty_account_id = p.counterparty_account_id;
  currency = p.currency;
  amount = abs_int64 p.amount_delta;
  booked_at = p.booked_at;
})

-- A normal posting of a payment kind, with the sign of its kind, comes back from the event that
-- newLedgerPaymentEvent makes of it.
pub preview-new_ledger_payment_event :
    (id : String) (p : LedgerAccountPosting) (k : PaymentKind)
    → trim_space id ≡ id
    → IsNormal id p
    → IsInt64 p.amount_delta
    → kind_of_reference p.reference_type ≡ some k
    → HasSignOf k p.amount_delta
    → (new_ledger_payment_event p ≡ some (event_of k p))
      × (preview_posting_from_event id (event_of k p) ≡ ok (some p))
unfolding new_ledger_payment_event preview_posting_from_event new_posting_from_payment_event
preview-new_ledger_payment_event id p k t n w kind sign = (
  rw (kind, new_ledger_payment_event),
  rw (
    directed_amount k p.amount_delta w sign,
    ← kind_of_reference-kind_name p.reference_type k kind,
    new_payment_posting_of_IsNormal id p t n,
  ),
)

-- The fields that a transfer's posting has by its construction.
transfer_shape :
    (input : TransferEventData) (delta : ℤ) (p : LedgerAccountPosting)
    → p ≡ normalized (transfer_posting input delta)
    → transfer_posting
        (record {
          transaction_id = p.transaction_id;
          peer_account_id = p.counterparty_account_id;
          currency = p.currency;
          amount = input.amount;
          booked_at = p.booked_at;
        })
        delta
      ≡ p
unfolding normalized trim_space
transfer_shape input delta p e = cc

-- The event of a transfer out carries the amount as it was given, and gives the posting back.
pub transfer_out_again :
    (id : String) (input : TransferEventData) (p : LedgerAccountPosting)
    → trim_space id ≡ id
    → new_transfer_out_posting id input ≡ ok p
    → new_transfer_out_posting id (event_data input p) ≡ ok p
unfolding new_transfer_out_posting
transfer_out_again id input p t h =
    let (n, e) = new_payment_posting-IsNormal id _ p h in
    rw (transfer_shape input (neg64 input.amount) p e)
      (new_payment_posting_of_IsNormal id p t (rw t at n))

pub transfer_in_again :
    (id : String) (input : TransferEventData) (p : LedgerAccountPosting)
    → trim_space id ≡ id
    → new_transfer_in_posting id input ≡ ok p
    → new_transfer_in_posting id (event_data input p) ≡ ok p
unfolding new_transfer_in_posting
transfer_in_again id input p t h =
    let (n, e) = new_payment_posting-IsNormal id _ p h in
    rw (transfer_shape input input.amount p e) (new_payment_posting_of_IsNormal id p t (rw t at n))

carried_ok :
    (r : Result LedgerError LedgerAccountPosting) (p : LedgerAccountPosting)
    → (r >>= λ x. ok (some x)) ≡ ok (some p)
    → r ≡ ok p
carried_ok (ok x) p h = cc
carried_ok (err x) p h = cc

made-IsNormal :
    (id : String) (input p : LedgerAccountPosting)
    → trim_space id ≡ id
    → (new_payment_posting id input >>= λ x. ok (some x)) ≡ ok (some p)
    → IsNormal id p
made-IsNormal id input p t h =
    rw t at
      (new_payment_posting-IsNormal id input p (carried_ok (new_payment_posting id input) p h)).0

-- The posting that an event carries is normal.
pub preview-IsNormal :
    (id : String) (e : LedgerEvent) (p : LedgerAccountPosting)
    → trim_space id ≡ id
    → preview_posting_from_event id e ≡ ok (some p)
    → IsNormal id p
unfolding preview_posting_from_event new_posting_from_payment_event new_transfer_out_posting
    new_transfer_in_posting
preview-IsNormal id (payment_event k payload) p t h = made-IsNormal id _ p t h
preview-IsNormal id (transferred_to_account payload) p t h = made-IsNormal id _ p t h
preview-IsNormal id (received_transfer payload) p t h = made-IsNormal id _ p t h
preview-IsNormal id (other_event name) p t h = cc

-- The name of a kind of event is trimmed, and leads back to the kind.
pub kind_of_reference-trim_space :
    (k : PaymentKind) → kind_of_reference (trim_space (kind_name k)) ≡ some k
unfolding kind_of_reference trim_space
kind_of_reference-trim_space deposit_from_intent = refl
kind_of_reference-trim_space _ = refl

-- The event of a transfer gives its posting back.
pub preview_transfer_out :
    (id : String) (input : TransferEventData) (p : LedgerAccountPosting)
    → trim_space id ≡ id
    → new_transfer_out_posting id input ≡ ok p
    → preview_posting_from_event id (transferred_to_account (event_data input p)) ≡ ok (some p)
unfolding preview_posting_from_event
preview_transfer_out id input p t h = rw (transfer_out_again id input p t h)

pub preview_transfer_in :
    (id : String) (input : TransferEventData) (p : LedgerAccountPosting)
    → trim_space id ≡ id
    → new_transfer_in_posting id input ≡ ok p
    → preview_posting_from_event id (received_transfer (event_data input p)) ≡ ok (some p)
unfolding preview_posting_from_event
preview_transfer_in id input p t h = rw (transfer_in_again id input p t h)

-- A reversal is booked under a kind whose sign is that of the amount.
pub reversal_kind :
    (name : String) (delta : ℤ)
    → (not (trim_space name == payment_refunded) && not (trim_space name == payment_chargeback))
      ≡ false
    → (k : PaymentKind) × (reference_type_for_reversal (trim_space name) delta ≡ kind_name k)
      × HasSignOf k delta
unfolding reference_type_for_reversal
reversal_kind name delta h =
    rw (trim_space_idem name) (elim (Bool-cases (trim_space name == payment_refunded)) [
      | inl e ↦ rw e (by_sign deposit_from_refund withdraw_from_refund refl refl)
      | inr e ↦
          rw (e, chargeback e h)
            (by_sign deposit_from_chargeback withdraw_from_chargeback refl refl)
    ])
  where
    by_sign :
        (credit debit : PaymentKind)
        → is_debit credit ≡ false
        → is_debit debit ≡ true
        → (k : PaymentKind) × ((if leb_ℤ (pos 0) delta then kind_name credit else kind_name debit)
            ≡ kind_name k)
          × HasSignOf k delta
    by_sign credit debit c d = elim (Bool-cases (leb_ℤ (pos 0) delta)) [
      | inl s ↦ (credit, rw s refl, rw c (ground arith))
      | inr s ↦ (debit, rw s refl, rw d (ground arith))
    ]

    chargeback :
        (trim_space name == payment_refunded) ≡ false
        → (not (trim_space name == payment_refunded) && not (trim_space name == payment_chargeback))
          ≡ false
        → (trim_space name == payment_chargeback) ≡ true
    chargeback e h = ground arith
