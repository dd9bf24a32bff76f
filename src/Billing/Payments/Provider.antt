-- ===== src/Billing/Payments/Provider.antt =====
-- app/modules/billing/providers.py: the providers and their registry. Python's `str` methods are
-- parameters, and the payload of a webhook stands as the values that `handle_webhook` reads of it.
use text.Mathlib.Text.{◌==◌ as same_text}
use guitar_online.Base.{ℕ, Bool, Option, none, some, List, [], ◌∷◌, String, if◌then◌else◌}
pub use guitar_online.Store.Text.{Str, is_nonempty}
use guitar_online.Store.Enums.{PaymentStatusEnum}
use guitar_online.Store.Session.{business, Result, ok, err}

pub record PaymentProviderCreateResult : Type 0 where
  pub status : PaymentStatusEnum
  pub external_reference : Option String
  pub provider_payment_id : Option String
  pub paid_at : Option ℕ

pub record PaymentWebhookResult : Type 0 where
  pub payment_id : Option ℕ
  pub external_reference : Option String
  pub provider_payment_id : Option String
  pub status : Option PaymentStatusEnum
  pub paid_at : Option ℕ

-- A webhook's payload: the texts under its keys, and what Python's parsers make of two of them
-- (`none` inside is a `ValueError`).
pub record Payload : Type 0 where
  pub payment_id : Option (Option ℕ)
  pub external_reference : Option String
  pub provider_payment_id : Option String
  pub status : Option (Option PaymentStatusEnum)
  pub paid_at_is_text : Bool
  pub paid_at : Option (Option ℕ)

-- The protocol: what a provider answers to the service.
pub record PaymentProvider : Type 0 where
  pub name : String
  pub create_payment : ℕ → ℕ → String → Option String → Result PaymentProviderCreateResult
  pub handle_webhook : Payload → Result (Option PaymentWebhookResult)

-- `str(x) if x else None`
abbrev pub text_or_none : Option String → Option String
text_or_none none = none
text_or_none (some s) = if is_nonempty s then some s else none

abbrev pub webhook_paid_at : Payload → Result (Option ℕ)
webhook_paid_at payload = elim payload.paid_at [
  | none ↦ ok none
  | some t ↦
      if payload.paid_at_is_text
      then elim t [
        | none ↦ err (business "Webhook paid_at is not valid ISO datetime")
        | some time ↦ ok (some time)
      ]
      else err (business "Webhook paid_at must be ISO string")
]

abbrev pub webhook_payment_id : Payload → Result (Option ℕ)
webhook_payment_id payload = elim payload.payment_id [
  | none ↦ ok none
  | some none ↦ err (business "Webhook payment_id must be valid UUID")
  | some (some id) ↦ ok (some id)
]

-- The result of a payload whose status is known.
abbrev pub webhook_result :
    Payload
    → PaymentStatusEnum
    → Result (Option ℕ)
    → Result (Option ℕ)
    → Result (Option PaymentWebhookResult)
webhook_result payload status (err e) payment_id = err e
webhook_result payload status (ok paid_at) (err e) = err e
webhook_result payload status (ok paid_at) (ok payment_id) = ok (
    some (record {
      payment_id = payment_id;
      external_reference = text_or_none payload.external_reference;
      provider_payment_id = text_or_none payload.provider_payment_id;
      status = some status;
      paid_at = paid_at;
    }))

unfoldable pub manual_handle_webhook : Payload → Result (Option PaymentWebhookResult)
manual_handle_webhook payload = elim payload.status [
  | none ↦ ok none
  | some none ↦ err (business "Unsupported payment status in webhook payload")
  | some (some status) ↦
      webhook_result payload status (webhook_paid_at payload) (webhook_payment_id payload)
]

abbrev pub manual_paid : PaymentProvider
manual_paid = record {
  name = "manual_paid";
  create_payment = λ package_id amount currency external_reference. ok (record {
    status = PaymentStatusEnum.pending;
    external_reference = external_reference;
    provider_payment_id = external_reference;
    paid_at = none;
  });
  handle_webhook = manual_handle_webhook;
}

abbrev pub lookup : String → List PaymentProvider → Option PaymentProvider
lookup name [] = none
lookup name (p ∷ ps) = if same_text p.name name then some p else lookup name ps

-- A blank name is the default's.
abbrev pub normalized_name : Str → String → Option String → String
normalized_name text default_provider_name none = default_provider_name
normalized_name text default_provider_name (some s) =
    if is_nonempty (text.strip s) then text.lower (text.strip s) else default_provider_name

-- `PaymentProviderRegistry.resolve`
unfoldable pub resolve :
    Str → String → List PaymentProvider → Option String → Result PaymentProvider
resolve text default_provider_name providers provider_name =
    elim (lookup (normalized_name text default_provider_name provider_name) providers) [
      | none ↦ err (business "Unsupported payment provider: {normalized_name}")
      | some p ↦ ok p
    ]
