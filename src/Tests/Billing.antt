-- ===== src/Tests/Billing.antt =====
-- The billing service at concrete rows.
use guitar_online.Base.{Bool, refl, none, some, [], ◌∷◌}
use guitar_online.Base.Table.{find, IsKeyed}
use guitar_online.Store.Enums.{PaymentStatusEnum}
use guitar_online.Store.Rows.{package_key}
use guitar_online.Store.Session.{Db}
use guitar_online.Store.Ends.{Ends}
use guitar_online.Billing.Packages.Expire.{expire_packages_system}
use guitar_online.Billing.Packages.Sweep.{IsSweep, expire_packages_system-IsSweep}
use guitar_online.Billing.Payments.Provider.{Payload, manual_paid}
use guitar_online.Billing.Payments.Status.{update_payment_status}
use guitar_online.Billing.Payments.Create.{Registry}
use guitar_online.Billing.Payments.Webhook.{handle_payment_webhook}
use guitar_online.Billing.Payments.PaidAt.{Changed, update_payment_status-Changed}
use guitar_online.Billing.Payments.Delivery.{Delivered, handle_payment_webhook-Delivered}
use guitar_online.Tests.Rows.{env, noon, admin, pkg, db}

-- A package whose time has passed.
abbrev overdue : Db
overdue = db [] (record pkg { expires_at = noon } ∷ [])

one_package-IsKeyed : IsKeyed package_key overdue.packages
unfolding find
one_package-IsKeyed = (refl, tt)

expire_packages_system-IsSweep_example :
    Ends
      (IsSweep (env.clock 0) overdue)
      (expire_packages_system env none "system_expire_packages")
      overdue
expire_packages_system-IsSweep_example =
    expire_packages_system-IsSweep env none "system_expire_packages" overdue one_package-IsKeyed
      (refl, tt)

update_payment_status-Changed_example :
    Ends
      (Changed PaymentStatusEnum.succeeded)
      (update_payment_status env 40 PaymentStatusEnum.succeeded admin)
      overdue
update_payment_status-Changed_example =
    update_payment_status-Changed env 40 PaymentStatusEnum.succeeded admin overdue (refl, tt)

abbrev registry : Registry
registry = record {
  text = record { strip = λ s. s; upper = λ s. s; lower = λ s. s };
  default_provider_name = "manual_paid";
  providers = manual_paid ∷ [];
}

abbrev paid : Payload
paid = record {
  payment_id = none;
  external_reference = some "ref-1";
  provider_payment_id = none;
  status = some (some PaymentStatusEnum.succeeded);
  paid_at_is_text = Bool.true;
  paid_at = none;
}

handle_payment_webhook-Delivered_example :
    Ends Delivered (handle_payment_webhook registry env (some "manual_paid") paid) overdue
handle_payment_webhook-Delivered_example =
    handle_payment_webhook-Delivered registry env (some "manual_paid") paid overdue (refl, tt)
