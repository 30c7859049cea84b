-- ===== src/Ledger/Service/Moves.antt =====
-- core/modules/ledger/application/service/payment_event_service.go: ledger events as movements of
-- money from one account to another.
use wechat_clone.Base.{
  ◌≡◌, refl, String, Option, some, List, [], ◌∷◌, ◌++◌, ◌==◌, if◌then◌else◌, ◌&&◌,
}
use wechat_clone.Base.Int.{ℤ, pos, ◌+ℤ◌, neg_ℤ, int_laws}
use wechat_clone.Base.Text.{trim_space}
use wechat_clone.Base.Results.{Result, ok}
use wechat_clone.Event.{Event}
use wechat_clone.Ledger.Posting.{LedgerError, LedgerAccountPosting, LedgerEvent}
use wechat_clone.Ledger.Events.{preview_posting_from_event}

-- What ApplyPostingEvent finds in an event that is delivered to its account.
abbrev pub carried : Event LedgerEvent → Result LedgerError (Option LedgerAccountPosting)
carried e = preview_posting_from_event (trim_space e.aggregate_id) e.event_data

-- The amount of money in the currency `c` that an event brings to the account `id`.
abbrev pub amount_of :
    String → String → String → Result LedgerError (Option LedgerAccountPosting) → ℤ
amount_of id c owner (ok (some p)) =
    if owner == id && p.currency == c then p.amount_delta else pos 0
amount_of id c owner _ = pos 0

abbrev pub effect : String → String → List (Event LedgerEvent) → ℤ
effect id c [] = pos 0
effect id c (e ∷ es) = amount_of id c (trim_space e.aggregate_id) (carried e) +ℤ effect id c es

-- Money that goes from one account to another.
pub record Move : Type 0 where
  pub source : String
  pub target : String
  pub currency : String
  pub amount : ℤ

-- The event `e` takes a move's money out of its source by the posting `p`.
pub record Pays (m : Move) (e : Event LedgerEvent) (p : LedgerAccountPosting) : Type 0 where
  pub owner : trim_space e.aggregate_id ≡ m.source
  pub posting : carried e ≡ ok (some p)
  pub counterparty : p.counterparty_account_id ≡ m.target
  pub currency : p.currency ≡ m.currency
  pub amount : p.amount_delta ≡ neg_ℤ m.amount

-- The event `f` brings it to its target by the posting `q`.
pub record Receives (m : Move) (f : Event LedgerEvent) (q : LedgerAccountPosting) : Type 0 where
  pub owner : trim_space f.aggregate_id ≡ m.target
  pub posting : carried f ≡ ok (some q)
  pub counterparty : q.counterparty_account_id ≡ m.source
  pub currency : q.currency ≡ m.currency
  pub amount : q.amount_delta ≡ m.amount

-- The two sides of a movement, which share the transaction and the reference.
pub record Sides (m : Move) (e f : Event LedgerEvent) : Type 0 where
  pub out_posting : LedgerAccountPosting
  pub in_posting : LedgerAccountPosting
  pub pays : Pays m e out_posting
  pub receives : Receives m f in_posting
  pub transaction : out_posting.transaction_id ≡ in_posting.transaction_id
  pub reference : out_posting.reference_id ≡ in_posting.reference_id

-- The events carry the moves, one after the other, each by its two sides in either order.
pub data Carry : List (Event LedgerEvent) → List Move → Type 0 where
  nothing : Carry [] []
  pay_first :
      {es : List (Event LedgerEvent)} {ms : List Move} (m : Move) (e f : Event LedgerEvent)
      → Sides m e f
      → Carry es ms
      → Carry (e ∷ f ∷ es) (m ∷ ms)
  receive_first :
      {es : List (Event LedgerEvent)} {ms : List Move} (m : Move) (e f : Event LedgerEvent)
      → Sides m e f
      → Carry es ms
      → Carry (f ∷ e ∷ es) (m ∷ ms)

pub Carry-append :
    {es fs : List (Event LedgerEvent)} {ms ns : List Move}
    → Carry es ms
    → Carry fs ns
    → Carry (es ++ fs) (ms ++ ns)
Carry-append nothing d = d
Carry-append (pay_first m e f s c) d = pay_first m e f s (Carry-append c d)
Carry-append (receive_first m e f s c) d = receive_first m e f s (Carry-append c d)

-- What the moves bring to the account `id` in the currency `c`.
abbrev pub net_of_move : String → String → Move → ℤ
net_of_move id c m =
    (if m.source == id && m.currency == c then neg_ℤ m.amount else pos 0)
    +ℤ (if m.target == id && m.currency == c then m.amount else pos 0)

abbrev pub net : String → String → List Move → ℤ
net id c [] = pos 0
net id c (m ∷ ms) = net_of_move id c m +ℤ net id c ms

module _ (id c : String) where
  Pays-amount :
      (m : Move) (e : Event LedgerEvent) (p : LedgerAccountPosting)
      → Pays m e p
      → amount_of id c (trim_space e.aggregate_id) (carried e)
        ≡ (if m.source == id && m.currency == c then neg_ℤ m.amount else pos 0)
  Pays-amount m e p s = rw (s.posting, s.owner, s.currency, s.amount) refl

  Receives-amount :
      (m : Move) (f : Event LedgerEvent) (q : LedgerAccountPosting)
      → Receives m f q
      → amount_of id c (trim_space f.aggregate_id) (carried f)
        ≡ (if m.target == id && m.currency == c then m.amount else pos 0)
  Receives-amount m f q s = rw (s.posting, s.owner, s.currency, s.amount) refl

  -- Events that carry moves bring to each account what the moves do.
  pub effect-eq-net :
      {es : List (Event LedgerEvent)} {ms : List Move} → Carry es ms → effect id c es ≡ net id c ms
  effect-eq-net nothing = refl
  effect-eq-net (pay_first m e f s rest) =
      rw
        (
          Pays-amount m e s.out_posting s.pays,
          Receives-amount m f s.in_posting s.receives,
          effect-eq-net rest,
        )
        (omega int_laws)
  effect-eq-net (receive_first m e f s rest) =
      rw
        (
          Pays-amount m e s.out_posting s.pays,
          Receives-amount m f s.in_posting s.receives,
          effect-eq-net rest,
        )
        (omega int_laws)
