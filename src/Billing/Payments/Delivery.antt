-- ===== src/Billing/Payments/Delivery.antt =====
-- What a provider's webhook does to the payments.
use guitar_online.Base.{◌≡◌, refl, subst, Option, none, some, String, All, All-first_match}
use guitar_online.Base.Table.{All-find}
use guitar_online.Store.Enums.{PaymentStatusEnum}
use guitar_online.Store.Rows.{Payment, payment_key}
use guitar_online.Store.Session.{Db, Env, Result, ok, err, Exec, gets, ◌>>=◌}
use guitar_online.Store.Ends.{
  Ends, Checked, Ends-pure, Ends-raise, Ends-if_found, Ends-or_raise, Ends-bind, Ends-check,
}
use guitar_online.Billing.Payments.Provider.{
  Payload, PaymentProvider, PaymentWebhookResult, text_or_none,
}
use guitar_online.Billing.Payments.Create.{Registry, answer}
use guitar_online.Billing.Payments.Webhook.{
  has_text, or_look, payment_of_webhook, apply_webhook, handle_payment_webhook,
}
use guitar_online.Billing.Payments.PaidAt.{IsDated, set_payment_status-Changed}

-- What a lookup finds is a payment of the table.
abbrev IsFound : (Payment → Type 0) → Option Payment → Type 0
IsFound P none = Unit
IsFound P (some p) = P p

module _ (d : Db) (all : All IsDated d.payments) where
  or_look-Checked :
      {A : Type 0} (o : Option Payment) (x : Option A) (f : A → Exec (Option Payment))
      → IsFound IsDated o
      → ((a : A) → Ends (Checked d (IsFound IsDated)) (f a) d)
      → Ends (Checked d (IsFound IsDated)) (or_look o x f) d
  or_look-Checked (some p) x f h g = Ends-pure _ (refl, h)
  or_look-Checked none x f h g = Ends-if_found x _ _ (λ _. Ends-pure _ (refl, tt)) (λ a _. g a)

  IsFound-IsDated :
      (o : Option Payment) → ((p : Payment) → o ≡ some p → IsDated p) → IsFound IsDated o
  IsFound-IsDated none h = tt
  IsFound-IsDated (some p) h = h p refl

  Ends-query :
      (f : Db → Option Payment)
      → ((p : Payment) → f d ≡ some p → IsDated p)
      → Ends (Checked d (IsFound IsDated)) (gets f) d
  unfolding ◌>>=◌
  Ends-query f h = record { at = (refl, IsFound-IsDated (f d) h) }

  payment_of_webhook-Checked :
      (w : PaymentWebhookResult) → Ends (Checked d (IsFound IsDated)) (payment_of_webhook w) d
  unfolding payment_of_webhook
  payment_of_webhook-Checked w =
      Ends-check _ _ _
        (or_look-Checked none w.payment_id _ tt
          (λ id. Ends-query _ (λ p. All-find payment_key IsDated id p d.payments all)))
        (λ _. refl)
        λ o h.
          Ends-check _ _ _
            (or_look-Checked o (text_or_none w.external_reference) _ h (λ t. Ends-query _ (λ p.
              All-first_match IsDated (λ q. has_text q.external_reference t) p d.payments all)))
            (λ _. refl)
            λ o' h'. or_look-Checked o' (text_or_none w.provider_payment_id) _ h' (λ t.
              Ends-query _ (λ p.
                All-first_match IsDated (λ q. has_text q.provider_payment_id t) p d.payments all))

answer-Checked :
    {A : Type 0} (r : Result A) (d : Db) → Ends (Checked d (λ _. Unit {0})) (answer r) d
answer-Checked (ok a) d = Ends-pure _ (refl, tt)
answer-Checked (err e) d = Ends-raise _ refl

-- After a webhook every payment is dated, and the one that is returned too.
abbrev pub Delivered : Result (Option Payment) → Db → Type 0
Delivered (ok none) d = All IsDated d.payments
Delivered (ok (some p)) d = All IsDated d.payments × IsDated p
Delivered (err e) d = All IsDated d.payments

apply_webhook-Delivered :
    (env : Env) (provider : PaymentProvider) (w : PaymentWebhookResult) (status : PaymentStatusEnum)
    (d : Db)
    → All IsDated d.payments
    → Ends Delivered (apply_webhook env provider w status) d
unfolding apply_webhook
apply_webhook-Delivered env provider w status d all =
    Ends-check _ _ _ (payment_of_webhook-Checked d all w) (λ _. all)
      λ o h.
        Ends-or_raise _ _ _ (λ _. all)
          λ p e.
            Ends-bind _ _ _
              (set_payment_status-Changed env p status _ _ _ _ d all (subst (IsFound IsDated) e h))
              (λ e d' q. q) λ changed d' q. Ends-pure _ (q.0, q.1)

-- Whatever a webhook's payload says, if each payment carries the time it was paid at exactly while
-- it is SUCCEEDED or REFUNDED, then it does after `handle_payment_webhook`, whether that returns or
-- raises.
pub handle_payment_webhook-Delivered :
    (r : Registry) (env : Env) (name : Option String) (payload : Payload) (d : Db)
    → All IsDated d.payments
    → Ends Delivered (handle_payment_webhook r env name payload) d
unfolding handle_payment_webhook
handle_payment_webhook-Delivered r env name payload d all =
    Ends-check _ _ _ (answer-Checked _ d) (λ _. all)
      λ provider _.
        Ends-check _ _ _ (answer-Checked (provider.handle_webhook payload) d) (λ _. all)
          λ o _.
            Ends-if_found o _ _ (λ _. Ends-pure _ all)
              λ w _.
                Ends-if_found w.status _ _ (λ _. Ends-pure _ all)
                  λ status _. apply_webhook-Delivered env provider w status d all
