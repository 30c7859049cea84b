-- ===== src/Ledger/Tests.antt =====
-- Tests of core/modules/ledger/domain on concrete accounts, and the theorems at concrete inputs.
use wechat_clone.Base.{
  ◌≡◌, refl, String, true, false, some, none, [], inl, if◌then◌else◌, ◌==◌, arith,
}
use wechat_clone.Base.Int.{pos, ◌≤ℤ◌, IsInt64, add64, neg64, neg_ℤ, mul64, ◌*ℤ◌, wrap64, ◌+ℤ◌}
use wechat_clone.Base.Text.{trim_space, to_upper}
use wechat_clone.Base.Text.Case.{upper_trimmed}
use wechat_clone.Base.Maps.{lookup, insert, get_or}
use wechat_clone.Base.Results.{ok, err}
use wechat_clone.Event.{init_aggregate, apply_change, new_event, load_from_history}
use wechat_clone.Event.Numbering.{IsNumbered, apply_change-IsNumbered}
use wechat_clone.Event.Replay.{persisted, Committed, here, next, load_from_history-mark_persisted}
use wechat_clone.Ledger.Posting.{
  LedgerAccountPosting, TransferEventData, root_error, deposit_from_intent, kind_name,
  insufficient_funds, new_payment_posting, new_ledger_posting, normalized,
  normalize_ledger_account_posting, validate_posting, is_known_reference_type,
  requires_non_negative_balance, new_transfer_out_posting, new_transfer_in_posting,
}
use wechat_clone.Ledger.Posting.Normal.{IsNormal}
use wechat_clone.Ledger.Events.{
  event_name, new_ledger_payment_event, preview_posting_from_event, kind_of_reference,
  reference_type_for_succeeded_amount, new_posting_from_payment_event,
}
use wechat_clone.Ledger.Events.RoundTrip.{event_of, preview-new_ledger_payment_event}
use wechat_clone.Ledger.Account.{
  LedgerAccountAggregate, new_ledger_account, balance, transition, change_account, post,
  book_payment, transfer_to_account, receive_transfer, lookup_pending_posting,
  ensure_posting_allowed,
}
use wechat_clone.Ledger.Account.Commands.{Command, book, run}
use wechat_clone.Ledger.Account.Settles.{IsWellFormed, Settles, run-Settles}
use wechat_clone.Ledger.Account.History.{
  Reached, Reached-IsWellFormed, start, after, posted_total, balance-eq-posted_total,
}
use wechat_clone.Ledger.Account.Retry.{run_again}
use wechat_clone.Ledger.Account.Log.{load_from_history-Reached}
use wechat_clone.Ledger.Account.Transfer.{transfer_to_account-balance, transfer_conserves}

abbrev fresh : String → LedgerAccountAggregate
fresh id = record {
  root = record {
    aggregate_id = id;
    aggregate_type = "LedgerAccountAggregate";
    version = 0;
    base_version = 0;
    events = [];
  };
  state = record { account_id = ""; balances = []; posted_transactions = [] };
}

abbrev deposit : Command
deposit = book " tx-1 " "pay-1" "ledger:clearing:stripe" "usd" (pos 100) 7

abbrev sent : TransferEventData
sent = record {
  transaction_id = "tx-2";
  peer_account_id = "bob";
  currency = "USD ";
  amount = pos 30;
  booked_at = 9;
}

abbrev received : TransferEventData
received = record sent { peer_account_id = "alice" }

-- The account of Alice after her deposit.
abbrev funded : LedgerAccountAggregate
funded = (run deposit (fresh "alice")).0

alice-IsWellFormed : IsWellFormed (fresh "alice")
unfolding trim_space
alice-IsWellFormed = record { trimmed = refl; owned = inl refl }

bob-IsWellFormed : IsWellFormed (fresh "bob")
unfolding trim_space
bob-IsWellFormed = record { trimmed = refl; owned = inl refl }

new_alice : new_ledger_account " alice" ≡ ok (fresh "alice")
unfolding new_ledger_account trim_space init_aggregate
new_alice = refl

abbrev paying : LedgerAccountAggregate
paying = (transfer_to_account funded sent).0

abbrev paid : LedgerAccountAggregate
paid = (receive_transfer (fresh "bob") received).0

-- Alice deposits 100 and sends 30 of it to Bob; she cannot send them from an empty account.
deposit_books : run deposit (fresh "alice") ≡ (funded, ok true)
unfolding run book_payment transfer_to_account receive_transfer new_payment_posting
    new_ledger_posting normalized trim_space upper_trimmed to_upper normalize_ledger_account_posting
    validate_posting is_known_reference_type reference_type_for_succeeded_amount
    lookup_pending_posting lookup insert get_or ensure_posting_allowed change_account apply_change
    new_ledger_payment_event transition mul64 neg64 neg_ℤ add64 ◌+ℤ◌ ◌*ℤ◌ wrap64 event_name
    preview_posting_from_event new_event new_posting_from_payment_event post balance
    requires_non_negative_balance new_transfer_out_posting new_transfer_in_posting
deposit_books = refl

transfer_books : transfer_to_account funded sent ≡ (paying, ok true)
unfolding run book_payment transfer_to_account receive_transfer new_payment_posting
    new_ledger_posting normalized trim_space upper_trimmed to_upper normalize_ledger_account_posting
    validate_posting is_known_reference_type reference_type_for_succeeded_amount
    lookup_pending_posting lookup insert get_or ensure_posting_allowed change_account apply_change
    new_ledger_payment_event transition mul64 neg64 neg_ℤ add64 ◌+ℤ◌ ◌*ℤ◌ wrap64 event_name
    preview_posting_from_event new_event new_posting_from_payment_event post balance
    requires_non_negative_balance new_transfer_out_posting new_transfer_in_posting
transfer_books = refl

receive_books : receive_transfer (fresh "bob") received ≡ (paid, ok true)
unfolding run book_payment transfer_to_account receive_transfer new_payment_posting
    new_ledger_posting normalized trim_space upper_trimmed to_upper normalize_ledger_account_posting
    validate_posting is_known_reference_type reference_type_for_succeeded_amount
    lookup_pending_posting lookup insert get_or ensure_posting_allowed change_account apply_change
    new_ledger_payment_event transition mul64 neg64 neg_ℤ add64 ◌+ℤ◌ ◌*ℤ◌ wrap64 event_name
    preview_posting_from_event new_event new_posting_from_payment_event post balance
    requires_non_negative_balance new_transfer_out_posting new_transfer_in_posting
receive_books = refl

overdraft_refused :
    transfer_to_account (fresh "alice") sent ≡ (fresh "alice", err insufficient_funds)
unfolding run book_payment transfer_to_account receive_transfer new_payment_posting
    new_ledger_posting normalized trim_space upper_trimmed to_upper normalize_ledger_account_posting
    validate_posting is_known_reference_type reference_type_for_succeeded_amount
    lookup_pending_posting lookup insert get_or ensure_posting_allowed change_account apply_change
    new_ledger_payment_event transition mul64 neg64 neg_ℤ add64 ◌+ℤ◌ ◌*ℤ◌ wrap64 event_name
    preview_posting_from_event new_event new_posting_from_payment_event post balance
    requires_non_negative_balance new_transfer_out_posting new_transfer_in_posting
overdraft_refused = refl

balances : (balance paying.state "usd" ≡ pos 70) × (balance paid.state " usd" ≡ pos 30)
unfolding run book_payment transfer_to_account receive_transfer new_payment_posting
    new_ledger_posting normalized trim_space upper_trimmed to_upper normalize_ledger_account_posting
    validate_posting is_known_reference_type reference_type_for_succeeded_amount
    lookup_pending_posting lookup insert get_or ensure_posting_allowed change_account apply_change
    new_ledger_payment_event transition mul64 neg64 neg_ℤ add64 ◌+ℤ◌ ◌*ℤ◌ wrap64 event_name
    preview_posting_from_event new_event new_posting_from_payment_event post balance
    requires_non_negative_balance new_transfer_out_posting new_transfer_in_posting
balances = (refl, refl)

amounts_typed : IsInt64 (pos 100) × IsInt64 (pos 30)
amounts_typed = (omega arith, omega arith)

funded-Reached : Reached (fresh "alice") funded
funded-Reached = after deposit amounts_typed.0 start

funded-IsWellFormed : IsWellFormed funded
funded-IsWellFormed = Reached-IsWellFormed alice-IsWellFormed funded-Reached

run-Settles_example : Settles (fresh "alice") (run deposit (fresh "alice"))
run-Settles_example = run-Settles deposit (fresh "alice") alice-IsWellFormed amounts_typed.0

run_again_example : run deposit funded ≡ (funded, ok false)
run_again_example =
    run_again deposit (fresh "alice") funded alice-IsWellFormed amounts_typed.0 deposit_books

balance-eq-posted_total_example :
    balance funded.state "usd"
    ≡ wrap64 (posted_total (upper_trimmed "usd") funded.state.posted_transactions)
balance-eq-posted_total_example = balance-eq-posted_total " alice" "usd" new_alice funded-Reached

load_from_history-Reached_example :
    load_from_history transition (fresh "alice") funded.root.events ≡ (persisted funded, none)
load_from_history-Reached_example = load_from_history-Reached " alice" new_alice funded-Reached

transfer_to_account-balance_example :
    (pos 0 ≤ℤ balance paying.state "USD ")
    × (balance paying.state "usd" ≡ (
        if upper_trimmed "USD " == upper_trimmed "usd"
        then add64 (balance funded.state "usd") (neg64 (pos 30))
        else balance funded.state "usd"))
transfer_to_account-balance_example =
    transfer_to_account-balance funded paying sent "usd" funded-IsWellFormed amounts_typed.1
      (omega arith) transfer_books

transfer_conserves_example :
    wrap64 (balance paying.state "usd" +ℤ balance paid.state "usd")
    ≡ wrap64 (balance funded.state "usd" +ℤ balance (fresh "bob").state "usd")
transfer_conserves_example =
    transfer_conserves funded paying (fresh "bob") paid sent received "usd" funded-IsWellFormed
      bob-IsWellFormed refl refl transfer_books receive_books

-- A payment event by itself, applied to a fresh account.
abbrev paid_in : LedgerAccountPosting
paid_in = record {
  transaction_id = "tx-3";
  reference_type = kind_name deposit_from_intent;
  reference_id = "pay-3";
  counterparty_account_id = "ledger:clearing:stripe";
  currency = "VND";
  amount_delta = pos 5;
  booked_at = 11;
}

abbrev changed : LedgerAccountAggregate
changed = (change_account (fresh "alice") (some (event_of deposit_from_intent paid_in))).0

changed_ok :
    change_account (fresh "alice") (some (event_of deposit_from_intent paid_in)) ≡ (changed, none)
unfolding run book_payment transfer_to_account receive_transfer new_payment_posting
    new_ledger_posting normalized trim_space upper_trimmed to_upper normalize_ledger_account_posting
    validate_posting is_known_reference_type reference_type_for_succeeded_amount
    lookup_pending_posting lookup insert get_or ensure_posting_allowed change_account apply_change
    new_ledger_payment_event transition mul64 neg64 neg_ℤ add64 ◌+ℤ◌ ◌*ℤ◌ wrap64 event_name
    preview_posting_from_event new_event new_posting_from_payment_event post balance
    requires_non_negative_balance new_transfer_out_posting new_transfer_in_posting
changed_ok = refl

apply_change-IsNumbered_example : IsNumbered changed.root.version changed.root.events
unfolding change_account
apply_change-IsNumbered_example =
    apply_change-IsNumbered transition root_error event_name (fresh "alice")
      (some (event_of deposit_from_intent paid_in)) tt

committed : Committed transition root_error event_name (fresh "alice") changed
unfolding change_account
committed = next (event_of deposit_from_intent paid_in) here changed_ok

load_from_history-mark_persisted_example :
    load_from_history transition (fresh "alice") changed.root.events ≡ (persisted changed, none)
load_from_history-mark_persisted_example =
    load_from_history-mark_persisted transition root_error event_name refl committed

paid_in-IsNormal : IsNormal "alice" paid_in
unfolding normalized trim_space upper_trimmed to_upper is_known_reference_type
paid_in-IsNormal = record {
  account_given = refl;
  type_known = refl;
  transaction_given = refl;
  reference_given = refl;
  counterparty_given = refl;
  accounts_differ = refl;
  currency_given = refl;
  amount_nonzero = refl;
  booked = refl;
  fixed = refl;
}

alice_trimmed : trim_space "alice" ≡ "alice"
unfolding trim_space
alice_trimmed = refl

paid_in_kind : kind_of_reference paid_in.reference_type ≡ some deposit_from_intent
unfolding kind_of_reference
paid_in_kind = refl

preview-new_ledger_payment_event_example :
    (new_ledger_payment_event paid_in ≡ some (event_of deposit_from_intent paid_in))
    × (preview_posting_from_event "alice" (event_of deposit_from_intent paid_in)
        ≡ ok (some paid_in))
preview-new_ledger_payment_event_example =
    preview-new_ledger_payment_event "alice" paid_in deposit_from_intent alice_trimmed
      paid_in-IsNormal (omega arith) paid_in_kind refl
