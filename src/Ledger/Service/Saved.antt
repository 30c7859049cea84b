-- ===== src/Ledger/Service/Saved.antt =====
-- core/modules/ledger/application/service/ledger_service.go: what the last loop of
-- RecordLedgerEvents leaves in the database.
use wechat_clone.Base.{
  ◌≡◌, refl, ap, ◌∙◌, inl, inr, String, true, false, Option, none, some, List, [], ◌∷◌, ◌==◌,
  Bool-cases, eq_iff, eq_refl,
}
use wechat_clone.Base.Maps.{Map, lookup}
use wechat_clone.Base.Results.{ok}
use wechat_clone.Ledger.Posting.{one_of}
use wechat_clone.Ledger.Account.{LedgerAccountState, LedgerAccountAggregate, balance}
use wechat_clone.Ledger.Service.Record.{
  Repository, SaveOutcome, saved, already_applied, failed, load_ledger_account, save_accounts,
}
use wechat_clone.Ledger.Service.Order.{AreDistinct}
use wechat_clone.Ledger.Service.Applied.{balance_at}
use wechat_clone.Ledger.Service.Stored.{IsStore, stored_balance, Opened}

-- The account of the map is loaded with the state that it has there.
pub record IsSaved {S : Type 0} (repo : Repository S) (s : S)
    (accounts : Map LedgerAccountAggregate) (id : String) : Type 0 where
  pub account : LedgerAccountAggregate
  pub again : LedgerAccountAggregate
  pub found : lookup id accounts ≡ some account
  pub loaded : load_ledger_account repo s id ≡ ok again
  pub same : again.state ≡ account.state

pub IsSaved-balance :
    {S : Type 0} (repo : Repository S) (s : S) (accounts : Map LedgerAccountAggregate)
    (id c : String)
    → IsSaved repo s accounts id
    → stored_balance repo s id c ≡ balance_at accounts id c
IsSaved-balance repo s accounts id c w =
    rw (w.loaded, w.found) (ap (λ (x : LedgerAccountState). balance x c) w.same)

distinct_from :
    (j k : String) (ks : List String) → one_of j ks ≡ true → one_of k ks ≡ false → (j == k) ≡ false
distinct_from j k ks t f = elim (Bool-cases (j == k)) [
  | inl e ↦ let same = (eq_iff j k).0 e in absurd (cc (t, f, same))
  | inr e ↦ e
]

-- What one round of the last loop has done where the loop ends without an error.
record Saves {S : Type 0} (repo : Repository S) (s s' : S) (accounts : Map LedgerAccountAggregate)
    (id : String) (ids : List String) : Type 0 where
  account : LedgerAccountAggregate
  between : S
  found : lookup id accounts ≡ some account
  save : repo.save s account ≡ (between, saved)
  rest : save_accounts repo between accounts ids ≡ (s', none)

save_accounts-Saves :
    {S : Type 0} (repo : Repository S) (s s' : S) (accounts : Map LedgerAccountAggregate)
    (id : String) (ids : List String)
    → save_accounts repo s accounts (id ∷ ids) ≡ (s', none)
    → Saves repo s s' accounts id ids
unfolding save_accounts
save_accounts-Saves {S} repo s s' accounts id ids h = find (lookup id accounts) refl
  where
    outcome :
        (a : LedgerAccountAggregate) (r : S × SaveOutcome)
        → lookup id accounts ≡ some a
        → repo.save s a ≡ r
        → Saves repo s s' accounts id ids
    outcome a (t, saved) f e = record {
      account = a;
      between = t;
      found = f;
      save = e;
      rest = rw (f, e, save_accounts, e) at h;
    }
    outcome a (t, already_applied) f e = absurd (cc (rw (f, e, save_accounts) at h))
    outcome a (t, failed) f e = absurd (cc (rw (f, e, save_accounts) at h))

    find :
        (o : Option LedgerAccountAggregate)
        → lookup id accounts ≡ o
        → Saves repo s s' accounts id ids
    find none f = absurd (cc (rw (f, save_accounts) at h))
    find (some a) f = outcome a (repo.save s a) f refl

module _ {S : Type 0} (repo : Repository S) (laws : IsStore repo) where
  -- What the last loop leaves: the saved accounts as they were, and the others as they are stored.
  pub save_accounts-stored :
      (s s' : S) (accounts : Map LedgerAccountAggregate) (ids : List String)
      → save_accounts repo s accounts ids ≡ (s', none)
      → AreDistinct ids
      → ((id : String) (a : LedgerAccountAggregate)
          → one_of id ids ≡ true
          → lookup id accounts ≡ some a
          → Opened repo s id a)
      → (id : String)
      → (one_of id ids ≡ true → IsSaved repo s' accounts id)
        × (one_of id ids ≡ false → load_ledger_account repo s' id ≡ load_ledger_account repo s id)
  unfolding save_accounts one_of
  save_accounts-stored s s' accounts [] h d o id =
      let same : s' ≡ s = cc h in (λ t. absurd (cc t), λ t. rw same refl)
  save_accounts-stored s s' accounts (k ∷ ks) h (apart, d) o id =
      let st = save_accounts-Saves repo s s' accounts k ks h in
      let a = st.account in
      let op = o k a (rw (eq_refl k) refl) st.found in
      let (b, there, same) =
        laws.written s st.between k op.base a op.trimmed op.loaded op.reached st.save in
      let kept : (j : String)
          → (j == k) ≡ false
          → load_ledger_account repo st.between j ≡ load_ledger_account repo s j =
        λ j n. laws.others s st.between j a (rw op.named n) st.save in
      let rest = save_accounts-stored st.between s' accounts ks st.rest d (λ j x t f.
        let n = distinct_from j k ks t apart in
        let was = o j x (rw n t) f in
        record {
          base = was.base;
          trimmed = was.trimmed;
          loaded = kept j n ∙ was.loaded;
          reached = was.reached;
          well = was.well;
          named = was.named;
        }) in
      elim (Bool-cases (id == k)) [
        | inr other ↦ rw other ((rest id).0, λ t. (rest id).1 t ∙ kept id other)
        | inl here ↦
            let e = (eq_iff id k).0 here in
            rw (here, e)
              (
                λ t. record {
                  account = a;
                  again = b;
                  found = st.found;
                  loaded = (rest k).1 apart ∙ there;
                  same = same;
                },
                λ t. absurd (cc t),
              )
      ]
