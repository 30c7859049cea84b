-- ===== src/Ledger/Account/Log.antt =====
-- core/modules/ledger/domain/aggregate/ledger_account_aggregate.go: the pending events of an
-- account as its log.
use wechat_clone.Base.{◌≡◌, String, Bool, true, false, none}
use wechat_clone.Base.Results.{Result, ok, err}
use wechat_clone.Event.{load_from_history}
use wechat_clone.Event.Replay.{Committed, here, next, persisted, load_from_history-mark_persisted}
use wechat_clone.Ledger.Posting.{LedgerError, root_error}
use wechat_clone.Ledger.Events.{event_name}
use wechat_clone.Ledger.Account.{
  LedgerAccountAggregate, new_ledger_account, transition, change_account,
}
use wechat_clone.Ledger.Account.Posting.{change_account_posts}
use wechat_clone.Ledger.Account.Commands.{run}
use wechat_clone.Ledger.Account.Settles.{IsWellFormed, Settles, run-Settles}
use wechat_clone.Ledger.Account.History.{
  Reached, start, after, Reached-IsWellFormed, new_ledger_account-IsWellFormed,
  new_ledger_account_ok,
}

Settles-Committed :
    {a : LedgerAccountAggregate} (b : LedgerAccountAggregate)
    (r : LedgerAccountAggregate × Result LedgerError Bool)
    → IsWellFormed b
    → Committed transition root_error event_name a b
    → Settles b r
    → Committed transition root_error event_name a r.0
Settles-Committed b (x, err _) w m s = rw s m
Settles-Committed b (x, ok false) w m s = rw s m
Settles-Committed b (x, ok true) w m (p, e, books) = next e m (
    rw books.booked (
      unfold change_account in
      change_account_posts b p e w.trimmed books.normal w.owned books.allowed books.carried))

Reached-Committed :
    {a b : LedgerAccountAggregate}
    → IsWellFormed a
    → Reached a b
    → Committed transition root_error event_name a b
Reached-Committed w start = here
Reached-Committed w (after {b} c v r) =
    let w' = Reached-IsWellFormed w r in
    Settles-Committed b (run c b) w' (Reached-Committed w r) (run-Settles c b w' v)

-- The pending events of an account carry all of it: loaded into the account as it was created,
-- they give without an error the account that MarkPersisted leaves, whatever commands it received.
pub load_from_history-Reached :
    (id : String) {a b : LedgerAccountAggregate}
    → new_ledger_account id ≡ ok a
    → Reached a b
    → load_from_history transition a b.root.events ≡ (persisted b, none)
load_from_history-Reached id {a} made r =
    load_from_history-mark_persisted transition root_error event_name
      (new_ledger_account_ok id a made).1
      (Reached-Committed (new_ledger_account-IsWellFormed id a made) r)
