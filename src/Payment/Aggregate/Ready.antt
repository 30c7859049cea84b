-- ===== src/Payment/Aggregate/Ready.antt =====
-- core/modules/payment/domain/aggregate/payment_intent_aggregate.go: what ApplyProviderOutcome and
-- MarkCreateFailed leave of the intent, and of the count of its events.
use wechat_clone.Base.{
  ℕ, ◌+◌, ◌*◌, ◌≤◌, ◌≡◌, refl, sym, ◌∙◌, inl, inr, String, true, false, ◌||◌, ◌==◌, arith, subst,
}
use wechat_clone.Base.Time.{Time}
use wechat_clone.Payment.Status.{
  success, failed, refunded, chargeback, PaymentTransition, PaymentTransitionType, to_none,
  to_succeeded, to_failed, to_refunded, to_chargeback,
}
use wechat_clone.Payment.Status.Moves.{
  rank, CanMove, CanMove-rank, create_succeeded, pending_succeeded, create_failed, pending_failed,
  success_refunded, success_charged_back, created, create_cancelled, pending_cancelled,
}
use wechat_clone.Payment.Intent.{PaymentIntent}
use wechat_clone.Payment.Intent.Settled.{IsStatus}
use wechat_clone.Payment.Aggregate.{PaymentAggregate}
use wechat_clone.Payment.Aggregate.Left.{Left, Moved}
use wechat_clone.Payment.Aggregate.Sound.{Sound, credits, reversals}
use wechat_clone.Payment.Aggregate.Steps.{Stands, Creditable, Reversible}

-- The statuses that a transition of a type goes to, and the rank that it starts from.
succeeded_from :
    (s s' : String) (kind : PaymentTransitionType)
    → CanMove s s' kind
    → kind ≡ to_succeeded
    → (rank s ≤ 1) × (s' ≡ success)
succeeded_from _ _ _ created h = absurd (cc h)
succeeded_from _ _ _ create_succeeded h = (omega arith, refl)
succeeded_from _ _ _ create_failed h = absurd (cc h)
succeeded_from _ _ _ create_cancelled h = absurd (cc h)
succeeded_from _ _ _ pending_succeeded h = (omega arith, refl)
succeeded_from _ _ _ pending_failed h = absurd (cc h)
succeeded_from _ _ _ pending_cancelled h = absurd (cc h)
succeeded_from _ _ _ success_refunded h = absurd (cc h)
succeeded_from _ _ _ success_charged_back h = absurd (cc h)

-- The status that a reversal of a type leaves.
abbrev pub reversal_status : PaymentTransitionType → String
reversal_status to_refunded = refunded
reversal_status _ = chargeback

abbrev pub IsReversal : PaymentTransitionType → Type 0
IsReversal to_refunded = Unit
IsReversal to_chargeback = Unit
IsReversal _ = ⊥

reversed_from :
    (s s' : String) (kind : PaymentTransitionType)
    → CanMove s s' kind
    → IsReversal kind
    → (rank s ≤ 2) × (s' ≡ reversal_status kind)
reversed_from _ _ _ created h = absurd h
reversed_from _ _ _ create_succeeded h = absurd h
reversed_from _ _ _ create_failed h = absurd h
reversed_from _ _ _ create_cancelled h = absurd h
reversed_from _ _ _ pending_succeeded h = absurd h
reversed_from _ _ _ pending_failed h = absurd h
reversed_from _ _ _ pending_cancelled h = absurd h
reversed_from _ _ _ success_refunded h = (omega arith, refl)
reversed_from _ _ _ success_charged_back h = (omega arith, refl)

failed_from :
    (s s' : String) (kind : PaymentTransitionType)
    → CanMove s s' kind
    → kind ≡ to_failed
    → s' ≡ failed
failed_from _ _ _ created h = absurd (cc h)
failed_from _ _ _ create_succeeded h = absurd (cc h)
failed_from _ _ _ create_failed h = refl
failed_from _ _ _ create_cancelled h = absurd (cc h)
failed_from _ _ _ pending_succeeded h = absurd (cc h)
failed_from _ _ _ pending_failed h = refl
failed_from _ _ _ pending_cancelled h = absurd (cc h)
failed_from _ _ _ success_refunded h = absurd (cc h)
failed_from _ _ _ success_charged_back h = absurd (cc h)

-- The aggregate with another intent.
abbrev pub put : PaymentAggregate → PaymentIntent → PaymentAggregate
put a p = record a { state = record (a.state) { intent = p } }

-- What a transition has made of an aggregate, ready to be recorded.
pub record Ready (now at : Time) (c r : ℕ) (ref : String) (q : PaymentIntent)
    (t : PaymentTransition) (a : PaymentAggregate) : Type 0 where
  pub sound : Sound c r q a
  pub current : t.current_status ≡ q.status
  pub status : IsStatus q.status
  pub stands : (t.state_changed || t.external_ref_changed) ≡ true → Stands now at ref q
  pub changed : (t.transition_type ≡ to_none → ⊥) → t.state_changed ≡ true
  pub creditable : t.transition_type ≡ to_succeeded → Creditable c r q a
  pub reversible :
      IsReversal t.transition_type → Reversible (reversal_status t.transition_type) c r q a
  pub failing : t.transition_type ≡ to_failed → q.status ≡ failed

module _ {s s' : String} (t : PaymentTransition) where
  moved_up : Moved s s' t → rank s ≤ rank s'
  moved_up (inl (_, m)) = omega (arith, CanMove-rank s s' t.transition_type m)
  moved_up (inr (_, _, e)) = rw e (omega arith)

  has_changed : Moved s s' t → (t.transition_type ≡ to_none → ⊥) → t.state_changed ≡ true
  has_changed (inl (e, _)) k = e
  has_changed (inr (_, e, _)) k = absurd (k e)

  fails : Moved s s' t → t.transition_type ≡ to_failed → s' ≡ failed
  fails (inl (_, m)) k = failed_from s s' t.transition_type m k
  fails (inr (_, e, _)) k = absurd (cc (sym e ∙ k))

module _ {now at : Time} {c r : ℕ} {ref s : String} {q : PaymentIntent} {t : PaymentTransition}
    (a : PaymentAggregate) (left : Left now at s ref q t)
    (identified : (a.root.aggregate_id == "") ≡ false)
    (credited : (c + credits a.root.events) * 2 ≤ rank s)
    (reversed : (r + reversals a.root.events) * 3 ≤ rank s) where
  put-Sound : Sound c r q (put a q)
  put-Sound = record {
    intent = refl;
    identified = identified;
    credited = omega (arith, credited, moved_up t left.moved);
    reversed = omega (arith, reversed, moved_up t left.moved);
  }

  can_credit : Moved s q.status t → t.transition_type ≡ to_succeeded → Creditable c r q (put a q)
  can_credit (inl (_, m)) k =
      let (low, there) = succeeded_from s q.status t.transition_type m k in
      (put-Sound, omega (arith, credited, low), there)
  can_credit (inr (_, e, _)) k = absurd (cc (sym e ∙ k))

  can_reverse :
      (kind : PaymentTransitionType)
      → t.transition_type ≡ kind
      → Moved s q.status t
      → IsReversal kind
      → Reversible (reversal_status kind) c r q (put a q)
  can_reverse kind k (inl (_, m)) h =
      let (low, there) = reversed_from s q.status kind (subst (CanMove s q.status) k m) h in
      (put-Sound, omega (arith, reversed, low), there)
  can_reverse kind k (inr (_, e, _)) h = absurd (subst IsReversal (sym k ∙ e) h)

  pub put-Ready : Ready now at c r ref q t (put a q)
  put-Ready = record {
    sound = put-Sound;
    current = left.current;
    status = left.status;
    stands = λ e. record { trimmed = left.trimmed; quiet = left.quiet; stamp = sym (left.stamp e) };
    changed = has_changed t left.moved;
    creditable = can_credit left.moved;
    reversible = can_reverse t.transition_type refl left.moved;
    failing = fails t left.moved;
  }
