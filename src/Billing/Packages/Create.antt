-- ===== src/Billing/Packages/Create.antt =====
-- `create_package`, `create_admin_package`, `cancel_admin_package` and `purchase_package`
use Prim.Native.String.{◌++◌ as append}
use text.Mathlib.Text.{◌==◌ as same_text}
use guitar_online.Base.{
  ℕ, ◌+◌, ◌*◌, not, ltb, leb, Option, none, some, List, [], ◌∷◌, String, first_match, if◌then◌else◌,
}
use guitar_online.Store.Enums.{PackageStatusEnum, PaymentStatusEnum, is_admin, is_student}
use guitar_online.Store.PackageStatus.{is_canceled}
use guitar_online.Store.PaymentStatus.{is_succeeded}
use guitar_online.Store.Rows.{User, LessonPackage, Payment, hour}
use guitar_online.Store.Events.{
  package_created, package_canceled, billing_package_create, admin_package_create,
  admin_package_cancel, billing_package_purchase,
}
use guitar_online.Store.Session.{
  Env, Exec, after, business, not_found, unauthorized, integrity, pure, raise, or_raise, raise_if,
  modify, create_outbox_event, create_audit_log, ◌>>=◌, ◌>>◌,
}
use guitar_online.Billing.Repository.{meets_constraints, get_package_by_id_for_update}
use guitar_online.Billing.Packages.Expire.{set_package_status}
use guitar_online.Billing.Payments.Provider.{Str}
use guitar_online.Billing.Payments.Status.{set_payment_status}
use guitar_online.Billing.Payments.Create.{Registry, create_payment}

-- PackageCreate; the administrator's has a price too.
pub record PackageCreate : Type 0 where
  pub student_id : ℕ
  pub lessons_total : ℕ
  pub expires_at : ℕ

-- The row that BillingRepository.create_package adds; its key first.
abbrev pub new_package : Str → ℕ → PackageCreate → Option ℕ → Option String → LessonPackage
new_package text id payload price_amount price_currency = record {
  id = id;
  student_id = payload.student_id;
  lessons_total = payload.lessons_total;
  lessons_left = payload.lessons_total;
  lessons_reserved = 0;
  price_amount = price_amount;
  price_currency = elim price_currency [ none ↦ none | some c ↦ some (text.upper c) ];
  expires_at = payload.expires_at;
  status = PackageStatusEnum.active;
}

-- The insert, with the CHECK constraints of the table.
unfoldable pub add_package : LessonPackage → Exec (Unit {0})
add_package p =
    if meets_constraints p
    then modify (λ d. record d { packages = p ∷ d.packages })
    else raise integrity

unfoldable pub create_package : Str → Env → PackageCreate → User → Exec LessonPackage
create_package text env payload actor = do
  raise_if (not (is_admin actor.role)) (unauthorized "Only admin can create lesson packages")
  raise_if (leb payload.expires_at (env.clock 0))
      (business "Package expiration must be in the future")
  let pkg = new_package text (env.uuid4 0) payload none none
  add_package pkg
  create_audit_log (some actor.id)
      (billing_package_create pkg.id pkg.student_id pkg.lessons_total pkg.expires_at)
  create_outbox_event (env.uuid4 1) (env.clock 1)
      (package_created pkg.id pkg.student_id pkg.lessons_total none none none)
  pure pkg

unfoldable pub create_admin_package :
    Str → Env → PackageCreate → ℕ → String → User → Exec LessonPackage
create_admin_package text env payload price_amount price_currency actor = do
  raise_if (not (is_admin actor.role)) (unauthorized "Only admin can create lesson packages")
  raise_if (leb payload.expires_at (env.clock 0))
      (business "Package expiration must be in the future")
  let pkg =
      new_package text (env.uuid4 0) payload (some price_amount) (some (text.upper price_currency))
  add_package pkg
  create_audit_log (some actor.id) (
      admin_package_create pkg.id pkg.student_id pkg.lessons_total pkg.price_amount
        pkg.price_currency pkg.expires_at)
  create_outbox_event (env.uuid4 1) (env.clock 1) (
      package_created pkg.id pkg.student_id pkg.lessons_total pkg.price_amount pkg.price_currency
        none)
  pure pkg

-- The writes of a cancellation.
unfoldable pub write_package_cancel : Env → LessonPackage → User → Exec LessonPackage
write_package_cancel env pkg actor = do
  canceled ← set_package_status pkg PackageStatusEnum.canceled
  create_audit_log (some actor.id) (
      admin_package_cancel canceled.id canceled.student_id pkg.status canceled.status
        canceled.lessons_left canceled.lessons_reserved)
  create_outbox_event (env.uuid4 0) (env.clock 0)
      (package_canceled canceled.id canceled.student_id pkg.status canceled.status)
  pure canceled

unfoldable pub cancel_admin_package : Env → ℕ → User → Exec LessonPackage
cancel_admin_package env package_id actor = do
  raise_if (not (is_admin actor.role)) (unauthorized "Only admin can cancel lesson packages")
  pkg ← or_raise (← get_package_by_id_for_update package_id) (not_found "Package not found")
  if is_canceled pkg.status then pure pkg else do
    raise_if (ltb 0 pkg.lessons_reserved) (business "Cannot cancel package with reserved lessons")
    write_package_cancel env pkg actor

pub record PackagePlan : Type 0 where
  pub id : String
  pub lessons_total : ℕ
  pub duration_days : ℕ
  pub price_amount : ℕ
  pub price_currency : String

abbrev pub package_plans : List PackagePlan
package_plans =
    record {
      id = "starter-4";
      lessons_total = 4;
      duration_days = 30;
      price_amount = 4900;
      price_currency = "USD";
    }
    ∷ record {
      id = "standard-8";
      lessons_total = 8;
      duration_days = 45;
      price_amount = 8900;
      price_currency = "USD";
    }
    ∷ record {
      id = "intensive-12";
      lessons_total = 12;
      duration_days = 60;
      price_amount = 12900;
      price_currency = "USD";
    }
    ∷ []

abbrev pub resolve_package_plan : Str → String → Exec PackagePlan
resolve_package_plan text plan_id =
    or_raise
      (first_match (λ plan. same_text plan.id (text.lower (text.strip plan_id))) package_plans)
      (not_found "Package plan not found")

-- The capture at the end of a purchase: the payment is SUCCEEDED.
unfoldable pub capture : Env → PackagePlan → Payment → User → Exec Payment
capture env plan payment actor =
    if is_succeeded payment.status
    then pure payment
    else set_payment_status env payment PaymentStatusEnum.succeeded (some actor.id)
        "billing.payment.purchase.capture" none (some plan.id)

-- The reference `package-purchase-{plan.id}-{package.id}`; `show` is `str` of a key.
abbrev pub purchase_reference : (ℕ → String) → PackagePlan → ℕ → String
purchase_reference show plan id = append "package-purchase-" (append plan.id (append "-" (show id)))

unfoldable pub purchase_package :
    Registry
    → (ℕ → String)
    → Env
    → String
    → String
    → User
    → Exec (PackagePlan × LessonPackage × Payment)
purchase_package r show env plan_id provider_name actor = do
  raise_if (not (is_student actor.role)) (unauthorized "Only students can purchase packages")
  plan ← resolve_package_plan r.text plan_id
  let pkg =
      new_package r.text (env.uuid4 0)
        (record {
          student_id = actor.id;
          lessons_total = plan.lessons_total;
          expires_at = env.clock 0 + plan.duration_days * (24 * hour);
        })
        (some plan.price_amount) (some plan.price_currency)
  add_package pkg
  create_audit_log (some actor.id) (
      billing_package_purchase plan.id pkg.id pkg.student_id pkg.lessons_total pkg.price_amount
        pkg.price_currency pkg.expires_at)
  create_outbox_event (env.uuid4 1) (env.clock 1) (
      package_created pkg.id pkg.student_id pkg.lessons_total pkg.price_amount pkg.price_currency
        (some plan.id))
  payment ←
      create_payment r (after 2 2 env)
        (record {
          package_id = pkg.id;
          amount = plan.price_amount;
          currency = plan.price_currency;
          provider_name = some provider_name;
          external_reference = some (purchase_reference show plan pkg.id);
        })
        actor
  captured ← capture (after 7 6 env) plan payment actor
  pure (plan, pkg, captured)
