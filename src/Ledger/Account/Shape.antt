-- ===== src/Ledger/Account/Shape.antt =====
-- core/modules/ledger/domain/aggregate/ledger_account_aggregate.go: what each command comes to
-- before it looks at the account's state.
use wechat_clone.Base.{
  ◌≡◌, refl, inl, inr, String, Bool, not, ◌&&◌, Option, some, none, arith, ◌==◌, Bool-cases,
}
use wechat_clone.Base.Int.{ℤ, pos, leb_ℤ, IsInt64}
use wechat_clone.Base.Text.{trim_space}
use wechat_clone.Base.Time.{Time}
use wechat_clone.Base.Results.{Result, ok, err}
use wechat_clone.Event.{unsupported_event_type}
use wechat_clone.Ledger.Posting.{
  LedgerError, root_error, reference_type_invalid, posting_mismatch, payment_booking_mismatch,
  transfer_mismatch, transfer_receive_mismatch, LedgerAccountPosting, TransferEventData,
  LedgerEvent, PaymentKind, deposit_from_intent, withdraw_from_intent, transferred_to_account,
  received_transfer, kind_name, normalized, new_payment_posting, new_transfer_out_posting,
  new_transfer_in_posting, event_data,
}
use wechat_clone.Ledger.Posting.Normal.{IsNormal, new_payment_posting-IsNormal}
use wechat_clone.Ledger.Events.{
  preview_posting_from_event, kind_of_reference, reference_type_for_succeeded_amount,
  payment_refunded, payment_chargeback,
}
use wechat_clone.Ledger.Events.RoundTrip.{
  HasSignOf, event_of, preview-new_ledger_payment_event, preview_transfer_out, preview_transfer_in,
  reversal_kind, preview-IsNormal, kind_of_reference-trim_space,
}
use wechat_clone.Ledger.Account.{
  LedgerAccountAggregate, record_posting, apply_posting_event, book_payment_posting, book_payment,
  reverse_payment, transfer_to_account, receive_transfer,
}
use wechat_clone.Ledger.Account.Commands.{
  Command, apply_event, book, reverse, transfer_out, transfer_in, run, IsTyped,
}

-- What a command comes to, on every account of the identifier `id`: an error that the account
-- does not matter for, or an attempt to record one normal posting by an event that carries it.
pub data Shape (method : LedgerAccountAggregate → LedgerAccountAggregate × Result LedgerError Bool)
    (id : String) : Type 0 where
  rejects :
      (x : LedgerError)
      → ((a : LedgerAccountAggregate) → a.root.aggregate_id ≡ id → method a ≡ (a, err x))
      → Shape method id
  records :
      (p : LedgerAccountPosting) (mismatch : LedgerError) (e : LedgerEvent)
      → IsNormal id p
      → preview_posting_from_event id e ≡ ok (some p)
      → ((a : LedgerAccountAggregate)
          → a.root.aggregate_id ≡ id
          → method a ≡ record_posting a p mismatch (some e))
      → Shape method id

module _ (id : String) (trimmed : trim_space id ≡ id) where
  apply_posting_event-Shape : (e : LedgerEvent) → Shape (λ a. apply_posting_event a e) id
  unfolding apply_posting_event
  apply_posting_event-Shape e = go (preview_posting_from_event id e) refl
    where
      go :
          (r : Result LedgerError (Option LedgerAccountPosting))
          → preview_posting_from_event id e ≡ r
          → Shape (λ a. apply_posting_event a e) id
      go (err x) q = rejects x (λ a same.
          let q' : preview_posting_from_event a.root.aggregate_id e ≡ err x = rw same q in
          rw (q', apply_posting_event))
      go (ok none) q = rejects (root_error unsupported_event_type) (λ a same.
          let q' : preview_posting_from_event a.root.aggregate_id e ≡ ok none = rw same q in
          rw (q', apply_posting_event))
      go (ok (some p)) q =
          records p posting_mismatch e (preview-IsNormal id e p trimmed q) q (λ a same.
            let q' : preview_posting_from_event a.root.aggregate_id e ≡ ok (some p) = rw same q in
            rw (q', apply_posting_event))

  book_payment_posting-Shape :
      (input : LedgerAccountPosting) (k : PaymentKind)
      → input.reference_type ≡ kind_name k
      → HasSignOf k input.amount_delta
      → IsInt64 input.amount_delta
      → Shape (λ a. book_payment_posting a input) id
  unfolding book_payment_posting normalized
  book_payment_posting-Shape input k t sign v = go (new_payment_posting id input) refl
    where
      go :
          (r : Result LedgerError LedgerAccountPosting)
          → new_payment_posting id input ≡ r
          → Shape (λ a. book_payment_posting a input) id
      go (err x) q = rejects x (λ a same.
          let q' : new_payment_posting a.root.aggregate_id input ≡ err x = rw same q in
          rw (q', book_payment_posting))
      go (ok p) q =
          let (n, made) = new_payment_posting-IsNormal id input p q in
          let normal = rw trimmed at n in
          let kind : kind_of_reference p.reference_type ≡ some k =
            rw (made, t) (kind_of_reference-trim_space k) in
          let (event, carried) =
            preview-new_ledger_payment_event id p k trimmed normal (rw made v) kind
              (rw made sign) in
          records p payment_booking_mismatch (event_of k p) normal carried (λ a same.
            let q' : new_payment_posting a.root.aggregate_id input ≡ ok p = rw same q in
            rw (q', event, book_payment_posting))

  book_payment-Shape :
      (t r c cur : String) (delta : ℤ) (at : Time)
      → IsInt64 delta
      → Shape (λ a. book_payment a t r c cur delta at) id
  unfolding book_payment reference_type_for_succeeded_amount
  book_payment-Shape t r c cur delta at v = elim (Bool-cases (leb_ℤ (pos 0) delta)) [
    | inl s ↦ book_payment_posting-Shape _ deposit_from_intent (rw s) (ground arith) v
    | inr s ↦ book_payment_posting-Shape _ withdraw_from_intent (rw s) (ground arith) v
  ]

  reverse_payment-Shape :
      (t k r c cur : String) (delta : ℤ) (at : Time)
      → IsInt64 delta
      → Shape (λ a. reverse_payment a t k r c cur delta at) id
  unfolding reverse_payment
  reverse_payment-Shape t k r c cur delta at v =
      elim (Bool-cases
        (not (trim_space k == payment_refunded) && not (trim_space k == payment_chargeback))) [
          | inl e ↦ rejects reference_type_invalid (λ a same. rw e)
          | inr e ↦
              let (kind, named, sign) = reversal_kind k delta e in
              simp e (book_payment_posting-Shape _ kind named sign v)
        ]

  pub transfer_to_account-Shape : (d : TransferEventData) → Shape (λ a. transfer_to_account a d) id
  unfolding transfer_to_account
  transfer_to_account-Shape d = go (new_transfer_out_posting id d) refl
    where
      go :
          (r : Result LedgerError LedgerAccountPosting)
          → new_transfer_out_posting id d ≡ r
          → Shape (λ a. transfer_to_account a d) id
      go (err x) q = rejects x (λ a same.
          let q' : new_transfer_out_posting a.root.aggregate_id d ≡ err x = rw same q in
          rw (q', transfer_to_account))
      go (ok p) q =
          let carried = preview_transfer_out id d p trimmed q in
          records p transfer_mismatch (transferred_to_account (event_data d p))
            (preview-IsNormal id _ p trimmed carried) carried
            (λ a same.
              let q' : new_transfer_out_posting a.root.aggregate_id d ≡ ok p = rw same q in
              rw (q', transfer_to_account))

  pub receive_transfer-Shape : (d : TransferEventData) → Shape (λ a. receive_transfer a d) id
  unfolding receive_transfer
  receive_transfer-Shape d = go (new_transfer_in_posting id d) refl
    where
      go :
          (r : Result LedgerError LedgerAccountPosting)
          → new_transfer_in_posting id d ≡ r
          → Shape (λ a. receive_transfer a d) id
      go (err x) q = rejects x (λ a same.
          let q' : new_transfer_in_posting a.root.aggregate_id d ≡ err x = rw same q in
          rw (q', receive_transfer))
      go (ok p) q =
          let carried = preview_transfer_in id d p trimmed q in
          records p transfer_receive_mismatch (received_transfer (event_data d p))
            (preview-IsNormal id _ p trimmed carried) carried
            (λ a same.
              let q' : new_transfer_in_posting a.root.aggregate_id d ≡ ok p = rw same q in
              rw (q', receive_transfer))

  pub run-Shape : (c : Command) → IsTyped c → Shape (run c) id
  unfolding run
  run-Shape (apply_event e) v = apply_posting_event-Shape e
  run-Shape (book t r c cur delta at) v = book_payment-Shape t r c cur delta at v
  run-Shape (reverse t k r c cur delta at) v = reverse_payment-Shape t k r c cur delta at v
  run-Shape (transfer_out d) v = transfer_to_account-Shape d
  run-Shape (transfer_in d) v = receive_transfer-Shape d
