-- ===== src/Billing/Payments/Webhook.antt =====
-- `handle_payment_webhook`
use text.Mathlib.Text.{◌==◌ as same_text}
use guitar_online.Base.{Bool, false, Option, none, some, String, first_match}
use guitar_online.Store.Enums.{PaymentStatusEnum}
use guitar_online.Store.Rows.{Payment}
use guitar_online.Store.Session.{Env, Exec, not_found, pure, gets, or_raise, if_found, ◌>>=◌}
use guitar_online.Billing.Payments.Provider.{
  Payload, PaymentProvider, PaymentWebhookResult, text_or_none,
}
use guitar_online.Billing.Payments.Status.{get_payment_by_id, set_payment_status}
use guitar_online.Billing.Payments.Create.{Registry, answer, resolve_provider}

abbrev pub has_text : Option String → String → Bool
has_text none t = false
has_text (some s) t = same_text s t

abbrev pub get_payment_by_external_reference : String → Exec (Option Payment)
get_payment_by_external_reference t =
    gets λ d. first_match (λ p. has_text p.external_reference t) d.payments

abbrev pub get_payment_by_provider_payment_id : String → Exec (Option Payment)
get_payment_by_provider_payment_id t =
    gets λ d. first_match (λ p. has_text p.provider_payment_id t) d.payments

-- `if payment is None and x: payment = …`
abbrev pub or_look :
    {A : Type 0} → Option Payment → Option A → (A → Exec (Option Payment)) → Exec (Option Payment)
or_look (some p) x f = pure (some p)
or_look none x f = if_found x (pure none) f

-- By the payment's key, else by the external reference, else by the provider's key.
unfoldable pub payment_of_webhook : PaymentWebhookResult → Exec (Option Payment)
payment_of_webhook w = do
  by_id ← or_look none w.payment_id get_payment_by_id
  by_reference ← or_look by_id (text_or_none w.external_reference) get_payment_by_external_reference
  or_look by_reference (text_or_none w.provider_payment_id) get_payment_by_provider_payment_id

unfoldable pub apply_webhook :
    Env → PaymentProvider → PaymentWebhookResult → PaymentStatusEnum → Exec (Option Payment)
apply_webhook env provider w status = do
  payment ← or_raise (← payment_of_webhook w) (not_found "Payment not found for webhook payload")
  changed ←
      set_payment_status env payment status none "billing.payment.webhook.update" w.paid_at
        (some provider.name)
  pure (some changed)

unfoldable pub handle_payment_webhook :
    Registry → Env → Option String → Payload → Exec (Option Payment)
handle_payment_webhook r env provider_name payload = do
  provider ← resolve_provider r provider_name
  webhook_result ← answer (provider.handle_webhook payload)
  if_found webhook_result (pure none)
      λ w. if_found w.status (pure none) λ status. apply_webhook env provider w status
