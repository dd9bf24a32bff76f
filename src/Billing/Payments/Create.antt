-- ===== src/Billing/Payments/Create.antt =====
-- `create_payment`
use guitar_online.Base.{
  ℕ, not, ◌&&◌, ◌||◌, Option, none, some, List, ◌∷◌, String, leb, ◌==◌, if◌then◌else◌,
}
use guitar_online.Store.Enums.{PaymentStatusEnum, is_admin, is_student}
use guitar_online.Store.PackageStatus.{is_active}
use guitar_online.Store.PaymentStatus.{same}
use guitar_online.Store.Rows.{User, LessonPackage, Payment}
use guitar_online.Store.Events.{billing_payment_create, payment_created}
use guitar_online.Store.Session.{
  Env, Exec, Result, ok, err, after, business, not_found, unauthorized, pure, raise, or_raise,
  raise_if, modify, create_outbox_event, create_audit_log, ◌>>=◌, ◌>>◌,
}
use guitar_online.Billing.Repository.{get_package_by_id}
use guitar_online.Billing.Packages.Expire.{expire_package}
use guitar_online.Billing.Payments.Provider.{
  Str, is_nonempty, PaymentProvider, PaymentProviderCreateResult, resolve,
}
use guitar_online.Billing.Payments.Status.{set_payment_status}

-- PaymentCreate
pub record PaymentCreate : Type 0 where
  pub package_id : ℕ
  pub amount : ℕ
  pub currency : String
  pub provider_name : Option String
  pub external_reference : Option String

-- The registry that the service is built with.
pub record Registry : Type 0 where
  pub text : Str
  pub default_provider_name : String
  pub providers : List PaymentProvider

-- A call that answers at once, from outside the session.
abbrev pub answer : {A : Type 0} → Result A → Exec A
answer (ok a) = pure a
answer (err e) = raise e

abbrev pub resolve_provider : Registry → Option String → Exec PaymentProvider
resolve_provider r name = answer (resolve r.text r.default_provider_name r.providers name)

-- `created.external_reference or payload.external_reference`
abbrev pub reference_of : Option String → Option String → Option String
reference_of none given = given
reference_of (some s) given = if is_nonempty s then some s else given

-- The row that BillingRepository.create_payment adds.
abbrev pub new_payment : Str → ℕ → PaymentCreate → String → PaymentProviderCreateResult → Payment
new_payment text id payload provider_name created = record {
  id = id;
  package_id = payload.package_id;
  amount = payload.amount;
  currency = text.upper payload.currency;
  provider_name = text.lower (text.strip provider_name);
  provider_payment_id = created.provider_payment_id;
  status = PaymentStatusEnum.pending;
  external_reference = reference_of created.external_reference payload.external_reference;
  paid_at = none;
}

-- The package of a payment, which is active and has not expired; the clock is read once.
unfoldable pub payable_package : Env → ℕ → User → Exec LessonPackage
payable_package env package_id actor = do
  pkg ← or_raise (← get_package_by_id package_id) (not_found "Package not found")
  raise_if (is_student actor.role && not (pkg.student_id == actor.id))
      (unauthorized "Students can pay only their packages")
  let is_expired = leb pkg.expires_at (env.clock 0)
  if is_active pkg.status && is_expired
      then expire_package (after 1 0 env) (env.clock 0) (some actor.id) "payment_creation_check" pkg
      else pure tt
  raise_if is_expired (business "Package is expired")
  raise_if (not (is_active pkg.status)) (business "Package is not active")
  pure pkg

-- The writes: the payment, the log, the outbox, and the status that the provider answered.
unfoldable pub place_payment :
    Registry
    → Env
    → PaymentCreate
    → PaymentProvider
    → PaymentProviderCreateResult
    → User
    → Exec Payment
place_payment r env payload provider created actor = do
  let payment = new_payment r.text (env.uuid4 0) payload provider.name created
  modify (λ d. record d { payments = payment ∷ d.payments })
  create_audit_log (some actor.id) (
      billing_payment_create payment.id payment.package_id payment.amount payment.currency
        payment.external_reference payment.provider_name payment.provider_payment_id)
  create_outbox_event (env.uuid4 1) (env.clock 0)
      (payment_created payment.id payment.package_id payment.status payment.provider_name)
  if same created.status payment.status
      then pure payment
      else set_payment_status (after 1 2 env) payment created.status (some actor.id)
          "billing.payment.provider.status.sync" created.paid_at (some provider.name)

unfoldable pub create_payment : Registry → Env → PaymentCreate → User → Exec Payment
create_payment r env payload actor = do
  raise_if (not (is_admin actor.role || is_student actor.role))
      (unauthorized "Role is not allowed for payments")
  pkg ← payable_package env payload.package_id actor
  provider ← resolve_provider r payload.provider_name
  created ←
      answer
        (provider.create_payment pkg.id payload.amount payload.currency payload.external_reference)
  place_payment r (after 2 1 env) payload provider created actor
