-- ===== src/Ledger/Account/Retry.antt =====
-- core/modules/ledger/domain/aggregate/ledger_account_aggregate.go: a command that is sent again.
use wechat_clone.Base.{◌≡◌, refl, ap, sym, ◌∙◌, String, true, false, some, eq_refl}
use wechat_clone.Base.Int.{eqb_ℤ_refl}
use wechat_clone.Base.Text.{trim_space}
use wechat_clone.Base.Maps.{lookup-insert_self}
use wechat_clone.Base.Results.{ok}
use wechat_clone.Ledger.Posting.{LedgerError, LedgerAccountPosting, LedgerEvent, normalized}
use wechat_clone.Ledger.Posting.Normal.{IsNormal}
use wechat_clone.Ledger.Events.{same_posting}
use wechat_clone.Ledger.Account.{
  LedgerAccountState, LedgerAccountAggregate, post, lookup_pending_posting, record_posting,
}
use wechat_clone.Ledger.Account.Posting.{with_posting}
use wechat_clone.Ledger.Account.Commands.{Command, run, IsTyped}
use wechat_clone.Ledger.Account.Shape.{run-Shape, rejects, records}
use wechat_clone.Ledger.Account.Settles.{IsWellFormed, record_posting-Books, record_posting_known}

pub same_posting_refl : (p : LedgerAccountPosting) → same_posting p p ≡ true
unfolding same_posting
same_posting_refl p = simp (
  eq_refl p.transaction_id,
  eq_refl p.reference_type,
  eq_refl p.reference_id,
  eq_refl p.counterparty_account_id,
  eq_refl p.currency,
  eqb_ℤ_refl p.amount_delta,
)

pub lookup_pending_posting-post :
    (s : LedgerAccountState) (id : String) (p : LedgerAccountPosting)
    → IsNormal id p
    → lookup_pending_posting (post s id p) p.transaction_id ≡ some p
unfolding lookup_pending_posting post normalized
lookup_pending_posting-post s id p n =
    let t : trim_space p.transaction_id ≡ p.transaction_id =
      ap (λ (q : LedgerAccountPosting). q.transaction_id) n.fixed in
    rw (t, n.transaction_given) (lookup-insert_self p.transaction_id p s.posted_transactions)

posted_again :
    (a : LedgerAccountAggregate) (p : LedgerAccountPosting) (e : LedgerEvent) (m : LedgerError)
    → IsNormal a.root.aggregate_id p
    → let b = with_posting a p e in record_posting b p m (some e) ≡ (b, ok false)
posted_again a p e m n =
    let b = with_posting a p e in
    record_posting_known b p p m (some e)
      (lookup_pending_posting-post a.state a.root.aggregate_id p n)
    ∙ rw (same_posting_refl p)

-- A command that has booked its posting books nothing when it is sent again: it returns false,
-- with no error, and the account is as before.
pub run_again :
    (c : Command) (a b : LedgerAccountAggregate)
    → IsWellFormed a
    → IsTyped c
    → run c a ≡ (b, ok true)
    → run c b ≡ (b, ok false)
run_again c a b w v h = elim (run-Shape a.root.aggregate_id w.trimmed c v) [
  | rejects x e ↦ absurd (cc (sym (e a refl) ∙ h))
  | records p m e n carried same ↦
      let books = record_posting-Books a w p m e b n carried (sym (same a refl) ∙ h) in
      rw books.booked (same (with_posting a p e) refl ∙ posted_again a p e m n)
]
