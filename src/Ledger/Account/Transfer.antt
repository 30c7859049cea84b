-- ===== src/Ledger/Account/Transfer.antt =====
-- core/modules/ledger/domain/aggregate/ledger_account_aggregate.go: TransferToAccount and
-- ReceiveTransfer, alone and together.
use wechat_clone.Base.{subst}
use wechat_clone.Base.Maps.{get_or}
use wechat_clone.Base.{◌≡◌, refl, ap, ◌∙◌, String, Bool, true, false, ◌==◌, if◌then◌else◌}
use wechat_clone.Base.Int.{
  ℤ, pos, ◌≤ℤ◌, add64, neg64, IsInt64, wrap64, ◌+ℤ◌, transfer_sum, neg64_negative,
}
use wechat_clone.Base.Text.{trim_space}
use wechat_clone.Base.Text.Case.{upper_trimmed, upper_trimmed_idem}
use wechat_clone.Base.Results.{Result, ok, err}
use wechat_clone.Ledger.Posting.{
  LedgerAccountPosting, LedgerError, transfer_mismatch, transfer_receive_mismatch, LedgerEvent,
  TransferEventData, transferred_to_account, received_transfer, normalized, transfer_posting,
  event_data, internal_transfer, requires_non_negative_balance, new_transfer_out_posting,
  new_transfer_in_posting,
}
use wechat_clone.Ledger.Posting.Normal.{new_payment_posting-IsNormal}
use wechat_clone.Ledger.Account.{
  LedgerAccountAggregate, balance, post, transfer_to_account, receive_transfer,
}
use wechat_clone.Ledger.Events.RoundTrip.{
  preview-IsNormal, preview_transfer_out, preview_transfer_in,
}
use wechat_clone.Ledger.Account.Settles.{IsWellFormed, Books, record_posting-Books}
use wechat_clone.Ledger.Account.Balance.{balance-post, solvent}

-- The method has booked one posting, of the amount `delta`, as its constructor shapes it.
abbrev Transferred :
    TransferEventData → ℤ → LedgerAccountAggregate → LedgerAccountAggregate → Type 0
Transferred d delta a b =
    (p : LedgerAccountPosting) × (p ≡ normalized (transfer_posting d delta))
    × (e : LedgerEvent) × Books a p e b

transfer_to_account-Transferred :
    (a b : LedgerAccountAggregate) (d : TransferEventData)
    → IsWellFormed a
    → transfer_to_account a d ≡ (b, ok true)
    → Transferred d (neg64 d.amount) a b
unfolding transfer_to_account new_transfer_out_posting
transfer_to_account-Transferred a b d w h = go (new_transfer_out_posting a.root.aggregate_id d) refl
  where
    go :
        (r : Result LedgerError LedgerAccountPosting)
        → new_transfer_out_posting a.root.aggregate_id d ≡ r
        → Transferred d (neg64 d.amount) a b
    go (err x) q = absurd (cc (rw (q, transfer_to_account) at h))
    go (ok p) q =
        let carried = preview_transfer_out a.root.aggregate_id d p w.trimmed q in
        (
          p,
          (new_payment_posting-IsNormal a.root.aggregate_id _ p q).1,
          transferred_to_account (event_data d p),
          record_posting-Books a w p transfer_mismatch _ b
              (preview-IsNormal a.root.aggregate_id _ p w.trimmed carried) carried
              (rw (q, transfer_to_account) at h),
        )

receive_transfer-Transferred :
    (a b : LedgerAccountAggregate) (d : TransferEventData)
    → IsWellFormed a
    → receive_transfer a d ≡ (b, ok true)
    → Transferred d d.amount a b
unfolding receive_transfer new_transfer_in_posting
receive_transfer-Transferred a b d w h = go (new_transfer_in_posting a.root.aggregate_id d) refl
  where
    go :
        (r : Result LedgerError LedgerAccountPosting)
        → new_transfer_in_posting a.root.aggregate_id d ≡ r
        → Transferred d d.amount a b
    go (err x) q = absurd (cc (rw (q, receive_transfer) at h))
    go (ok p) q =
        let carried = preview_transfer_in a.root.aggregate_id d p w.trimmed q in
        (
          p,
          (new_payment_posting-IsNormal a.root.aggregate_id _ p q).1,
          received_transfer (event_data d p),
          record_posting-Books a w p transfer_receive_mismatch _ b
              (preview-IsNormal a.root.aggregate_id _ p w.trimmed carried) carried
              (rw (q, receive_transfer) at h),
        )

-- What the booked posting of a transfer does to every balance.
Transferred-balance :
    (d : TransferEventData) (delta : ℤ) (a b : LedgerAccountAggregate) (c : String)
    → Transferred d delta a b
    → balance b.state c ≡ (
        if upper_trimmed d.currency == upper_trimmed c
        then add64 (balance a.state c) delta
        else balance a.state c)
unfolding normalized
Transferred-balance d delta a b c (p, shape, e, books) =
    ap (λ (x : LedgerAccountAggregate). balance x.state c) books.booked
    ∙ balance-post a.state a.root.aggregate_id p c
    ∙ ap
        (λ (x : LedgerAccountPosting).
          if x.currency == upper_trimmed c
          then add64 (balance a.state c) x.amount_delta
          else balance a.state c)
        shape

internal_transfer_guarded : requires_non_negative_balance (trim_space internal_transfer) ≡ true
unfolding requires_non_negative_balance trim_space
internal_transfer_guarded = refl

Transferred_solvent :
    (d : TransferEventData) (a b : LedgerAccountAggregate)
    → IsInt64 d.amount
    → pos 1 ≤ℤ d.amount
    → Transferred d (neg64 d.amount) a b
    → pos 0 ≤ℤ balance b.state d.currency
unfolding normalized balance
Transferred_solvent d a b v positive (p, shape, e, books) =
    let same : p.currency ≡ upper_trimmed d.currency =
      ap (λ (x : LedgerAccountPosting). x.currency) shape in
    let left =
      solvent a.state a.root.aggregate_id p books.allowed (rw same (upper_trimmed_idem d.currency))
        (rw shape (neg64_negative d.amount v positive)) (rw shape internal_transfer_guarded) in
    rw books.booked (
      subst
        (λ (k : String). pos 0 ≤ℤ get_or (pos 0) k (post a.state a.root.aggregate_id p).balances)
        (ap upper_trimmed same ∙ upper_trimmed_idem d.currency) left)

-- The same amount out of one number and into another.
move_sum :
    (t : Bool) (x y m : ℤ)
    → wrap64 ((if t then add64 x (neg64 m) else x) +ℤ (if t then add64 y m else y))
      ≡ wrap64 (x +ℤ y)
move_sum true x y m = transfer_sum x y m
move_sum false x y m = refl

-- A successful transfer of a positive amount takes the amount from the balance of its currency,
-- which stays at zero or above, and leaves the balance of every other currency alone.
pub transfer_to_account-balance :
    (a b : LedgerAccountAggregate) (d : TransferEventData) (c : String)
    → IsWellFormed a
    → IsInt64 d.amount
    → pos 1 ≤ℤ d.amount
    → transfer_to_account a d ≡ (b, ok true)
    → (pos 0 ≤ℤ balance b.state d.currency)
      × (balance b.state c ≡ (
          if upper_trimmed d.currency == upper_trimmed c
          then add64 (balance a.state c) (neg64 d.amount)
          else balance a.state c))
transfer_to_account-balance a b d c w v positive h =
    let t = transfer_to_account-Transferred a b d w h in
    (Transferred_solvent d a b v positive t, Transferred-balance d (neg64 d.amount) a b c t)

-- A transfer out of one account and into another, of the same amount and currency, conserves the
-- sum of the two balances in every currency (in int64 arithmetic, modulo 2^64).
pub transfer_conserves :
    (a a' b b' : LedgerAccountAggregate) (sent received : TransferEventData) (c : String)
    → IsWellFormed a
    → IsWellFormed b
    → sent.amount ≡ received.amount
    → upper_trimmed sent.currency ≡ upper_trimmed received.currency
    → transfer_to_account a sent ≡ (a', ok true)
    → receive_transfer b received ≡ (b', ok true)
    → wrap64 (balance a'.state c +ℤ balance b'.state c)
      ≡ wrap64 (balance a.state c +ℤ balance b.state c)
transfer_conserves a a' b b' sent received c wa wb same currency h k =
    let left =
      Transferred-balance sent (neg64 sent.amount) a a' c
        (transfer_to_account-Transferred a a' sent wa h) in
    let right =
      Transferred-balance received received.amount b b' c
        (receive_transfer-Transferred b b' received wb k) in
    rw (left, right, ← currency, ← same)
      (move_sum (upper_trimmed sent.currency == upper_trimmed c) (balance a.state c)
        (balance b.state c) sent.amount)
