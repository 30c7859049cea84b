-- ===== src/Ledger/Account/History.antt =====
-- core/modules/ledger/domain/aggregate/ledger_account_aggregate.go: what holds of an account after
-- any commands, from its creation on.
use wechat_clone.Base.{
  ◌≡◌, refl, inl, inr, String, Bool, true, false, none, [], ◌∷◌, arith, ◌==◌, eq_iff, if◌then◌else◌,
  Bool-cases,
}
use wechat_clone.Base.Int.{ℤ, pos, add64, wrap64, ◌+ℤ◌, int_laws, wrap64-add_left}
use wechat_clone.Base.Text.{trim_space_idem}
use wechat_clone.Base.Text.Case.{upper_trimmed}
use wechat_clone.Base.Maps.{Map, lookup, insert, get_or, get_or-insert, delete_of_absent}
use wechat_clone.Base.Results.{Result, ok, err}
use wechat_clone.Event.{init_aggregate, set_id}
use wechat_clone.Ledger.Posting.{LedgerError, LedgerAccountPosting}
use wechat_clone.Ledger.Account.{
  LedgerAccountState, LedgerAccountAggregate, new_ledger_account, empty_state, balance, post,
}
use wechat_clone.Ledger.Account.Commands.{Command, run, IsTyped}
use wechat_clone.Ledger.Account.Settles.{IsWellFormed, Settles, run-Settles}

-- A fresh account is well-formed, whatever identifier it was asked for.
pub new_ledger_account-IsWellFormed :
    (id : String) (a : LedgerAccountAggregate) → new_ledger_account id ≡ ok a → IsWellFormed a
unfolding new_ledger_account init_aggregate set_id
new_ledger_account-IsWellFormed id a h = ground (arith, trim_space_idem id)

Settles-IsWellFormed :
    (a : LedgerAccountAggregate) (r : LedgerAccountAggregate × Result LedgerError Bool)
    → IsWellFormed a
    → Settles a r
    → IsWellFormed r.0
Settles-IsWellFormed a (b, err _) w s = rw s w
Settles-IsWellFormed a (b, ok false) w s = rw s w
Settles-IsWellFormed a (b, ok true) w (p, e, books) =
    rw books.booked (unfold post in record { trimmed = w.trimmed; owned = inr refl })

-- The accounts that commands lead to, from the account `a` on.
pub data Reached (a : LedgerAccountAggregate) : LedgerAccountAggregate → Type 0 where
  start : Reached a a
  after :
      {b : LedgerAccountAggregate} (c : Command) → IsTyped c → Reached a b → Reached a (run c b).0

pub Reached-IsWellFormed :
    {a b : LedgerAccountAggregate} → IsWellFormed a → Reached a b → IsWellFormed b
Reached-IsWellFormed w start = w
Reached-IsWellFormed w (after {b} c v r) =
    let w' = Reached-IsWellFormed w r in Settles-IsWellFormed b (run c b) w' (run-Settles c b w' v)

-- The sum of the posted amounts in a currency.
abbrev pub posted_total : String → Map LedgerAccountPosting → ℤ
posted_total c [] = pos 0
posted_total c ((_, p) ∷ m) =
    let rest = posted_total c m in if p.currency == c then p.amount_delta +ℤ rest else rest

posted_total-insert :
    (c k : String) (p : LedgerAccountPosting) (m : Map LedgerAccountPosting)
    → lookup k m ≡ none
    → posted_total c (insert k p m)
      ≡ (if p.currency == c then posted_total c m +ℤ p.amount_delta else posted_total c m)
unfolding insert
posted_total-insert c k p m h = rw (delete_of_absent k m h) (grind int_laws)

-- The balances of an account are the sums of what was posted to it, in int64.
abbrev IsReconciled : LedgerAccountState → Type 0
IsReconciled s =
    (c : String) → get_or (pos 0) c s.balances ≡ wrap64 (posted_total c s.posted_transactions)

post-IsReconciled :
    (s : LedgerAccountState) (id : String) (p : LedgerAccountPosting)
    → lookup p.transaction_id s.posted_transactions ≡ none
    → IsReconciled s
    → IsReconciled (post s id p)
unfolding post add64
post-IsReconciled s id p fresh h c =
    rw (get_or-insert, posted_total-insert c p.transaction_id p s.posted_transactions fresh)
      (elim (Bool-cases (p.currency == c)) [
        | inl e ↦
            rw (e, (eq_iff p.currency c).0 e, h c)
              (wrap64-add_left (posted_total c s.posted_transactions) p.amount_delta)
        | inr e ↦ rw e (h c)
      ])

Settles-IsReconciled :
    (a : LedgerAccountAggregate) (r : LedgerAccountAggregate × Result LedgerError Bool)
    → IsReconciled a.state
    → Settles a r
    → IsReconciled r.0.state
Settles-IsReconciled a (b, err _) h s = rw s h
Settles-IsReconciled a (b, ok false) h s = rw s h
Settles-IsReconciled a (b, ok true) h (p, e, books) =
    rw books.booked (post-IsReconciled a.state a.root.aggregate_id p books.fresh h)

Reached-IsReconciled :
    {a b : LedgerAccountAggregate}
    → IsWellFormed a
    → IsReconciled a.state
    → Reached a b
    → IsReconciled b.state
Reached-IsReconciled w h start = h
Reached-IsReconciled w h (after {b} c v r) =
    Settles-IsReconciled b (run c b) (Reached-IsReconciled w h r)
      (run-Settles c b (Reached-IsWellFormed w r) v)

pub new_ledger_account_ok :
    (id : String) (a : LedgerAccountAggregate)
    → new_ledger_account id ≡ ok a
    → (a.state ≡ empty_state) × (a.root.events ≡ [])
unfolding new_ledger_account init_aggregate set_id
new_ledger_account_ok id a h = ground arith

empty_state-IsReconciled : IsReconciled empty_state
unfolding get_or lookup wrap64
empty_state-IsReconciled c = refl

new_ledger_account-IsReconciled :
    (id : String) (a : LedgerAccountAggregate) → new_ledger_account id ≡ ok a → IsReconciled a.state
new_ledger_account-IsReconciled id a h =
    rw (new_ledger_account_ok id a h).0 empty_state-IsReconciled

-- Whatever commands an account has received since it was created, its balance in each currency is
-- the sum of the amounts of its posted transactions in that currency, as an int64.
pub balance-eq-posted_total :
    (id : String) {a b : LedgerAccountAggregate} (c : String)
    → new_ledger_account id ≡ ok a
    → Reached a b
    → balance b.state c ≡ wrap64 (posted_total (upper_trimmed c) b.state.posted_transactions)
unfolding balance
balance-eq-posted_total id {a} c made r =
    Reached-IsReconciled (new_ledger_account-IsWellFormed id a made)
      (new_ledger_account-IsReconciled id a made) r (upper_trimmed c)
