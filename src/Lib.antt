-- ===== src/Lib.antt =====
-- The domain core of the wechat-clone server (Go): what its event-sourced aggregates, its ledger
-- and its payments do, as functions, and the theorems that make them correct.
--
-- Parts, and the files of the repository that they model:
--   Event          core/shared/pkg/event: the root that every aggregate embeds (aggregate_root.go).
--                  ApplyChange numbers an event, appends it to the pending ones and lets the
--                  aggregate's Transition act on it; LoadFromHistory replays stored events;
--                  MarkPersisted clears the pending ones. Transition is a parameter, which the
--                  ledger account fills.
--   Ledger.Posting, Ledger.Events, Ledger.Account
--                  core/modules/ledger/domain/aggregate: the ledger account. A command builds and
--                  normalises a posting, compares it with the one posted under its transaction, tests the
--                  funds and records an event; the event's Transition builds the posting again and
--                  books it. Commands.run is the five commands as one function.
--   Ledger.Transaction, Ledger.Booking
--                  core/modules/ledger/domain/entity: the double-entry transaction (ledger.go) and
--                  the bookings that make its entries (payment_booking.go, transfer_booking.go).
--   Payment.Status, Payment.Intent
--                  core/modules/payment/domain/entity: the status machine and the payment intent
--                  with the reports of its provider (payment_intent.go, payment_intent_behavior.go).
--   Payment.Events, Payment.Aggregate
--                  core/modules/payment/domain/aggregate/payment_intent_aggregate.go and
--                  core/shared/contracts/events: the event-sourced payment. A command is a step that
--                  takes the aggregate to a new one and returns a result or an error; it moves the
--                  intent, records the events of what happened and remembers the report. The
--                  aggregate has a copy of the status machine, of the normalisation and of the
--                  validation (Aggregate.Machine, Aggregate.Records), which is modelled apart from the
--                  entity's; Aggregate.Entity compares the two.
--   Ledger.Service, Ledger.Service.Record, Ledger.Service.Deliver
--                  core/modules/ledger/application/service: the events that the ledger makes of a
--                  payment's event (payment_event_service.go), and how it records them
--                  (RecordLedgerEvents in ledger_service.go): it loads the accounts, applies each event
--                  to its account and saves the accounts, in one transaction. The repository of the
--                  accounts is an interface (Record.Repository) with the laws that the service relies
--                  on (Stored.IsStore); RecordTests has a repository in memory for which they hold.
--   Relationship.Policy, Relationship.Request, Relationship.Pair
--                  core/modules/relationship/domain: the guards (policy/pair_invariants.go), the
--                  friend request, and the pair of an actor and a target with its nine commands
--                  (aggregate/relationship_pair_aggregate.go). A command asks its guard, answers the
--                  request where it is about one, and records an event whose transition changes the
--                  relations, the changes to persist and the counters. Pair.View is the abstract
--                  relationship that the commands refine.
--   Base           integers, Go's strings, times, maps and errors as these parts use them.
--
-- How Go is read:
--   * int64 is the type of integers with its wrap-around written out (Base.Int: wrap64, add64); that a
--     value which the caller passes is an int64 is a hypothesis (IsInt64).
--   * A string is a text of code points. TrimSpace cuts Unicode white space; ToUpper, ToLower and
--     EqualFold act on the letters a-z and A-Z only.
--   * time.Time is a number of nanoseconds since the zero time, UTC is the identity, and time.Now()
--     is an argument of the functions that read the clock.
--   * A map is a list of pairs that writing keeps free of double keys; a nil map is an empty one.
--   * A method that writes to its receiver returns the new value with its results; an error is a
--     value of a data type with one constructor per error variable, without its formatted details.
--   * Receivers, arguments and event data that are nil pointers are left out, where the code tests
--     for them and where it would panic. So are the identifier of an event and the time stamp of its
--     envelope, and JSON tags. stackErr, which decorates errors, is left out.
--   * Loops are recursion on their list; nothing here needs fuel.
--   * The ten event types of the ledger that carry a payment have the same fields: they are one data
--     type PaymentKind and one record.
--
-- Not modelled: the databases, brokers, HTTP and websocket transports, which are input and output;
-- the other methods of the ledger service and the message handlers, which decode a message and lock the
-- accounts; the application services of payments and relationships, which load an aggregate, call it and
-- save it; the event store; accounts, rooms, messages and notifications. The pair's pointer to its
-- friend request is shared with the changes to persist: the model keeps the request once, and that it is
-- tracked.
pub mod Base
pub mod Event
pub mod Ledger
pub mod Payment
pub mod Relationship
