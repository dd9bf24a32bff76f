-- ===== src/Billing/Payments/Status.antt =====
-- `_set_payment_status` and `update_payment_status`
use guitar_online.Base.{ℕ, Bool, false, not, ◌||◌, Option, none, some, String, if◌then◌else◌}
use guitar_online.Base.Table.{find, save}
use guitar_online.Store.Enums.{PaymentStatusEnum, is_admin}
use guitar_online.Store.PaymentStatus.{is_pending, is_succeeded, is_failed, is_refunded, same}
use guitar_online.Store.Rows.{User, Payment, payment_key}
use guitar_online.Store.Events.{payment_status, payment_status_updated}
use guitar_online.Store.Session.{
  Env, Exec, business, not_found, unauthorized, pure, gets, or_raise, raise_if, modify,
  create_outbox_event, create_audit_log, ◌>>=◌, ◌>>◌,
}

-- BillingRepository.get_payment_by_id
abbrev pub get_payment_by_id : ℕ → Exec (Option Payment)
get_payment_by_id id = gets λ d. find payment_key id d.payments

-- A payment under a new status (BillingRepository.set_payment_status).
abbrev pub with_payment_status : Payment → PaymentStatusEnum → Option ℕ → Payment
with_payment_status payment status paid_at = record payment { status = status; paid_at = paid_at }

-- `_allowed_payment_transitions`, as a test.
abbrev pub allowed_transition : PaymentStatusEnum → PaymentStatusEnum → Bool
allowed_transition PaymentStatusEnum.pending to = is_succeeded to || is_failed to
allowed_transition PaymentStatusEnum.failed to = is_pending to || is_succeeded to
allowed_transition PaymentStatusEnum.succeeded to = is_refunded to
allowed_transition PaymentStatusEnum.refunded to = false

-- `_resolve_paid_at_for_status`; a datetime is in UTC here. The first argument is the reading of
-- the clock, which the source makes when there is no other value.
abbrev pub resolve_paid_at_for_status : ℕ → Payment → PaymentStatusEnum → Option ℕ → Option ℕ
resolve_paid_at_for_status now payment PaymentStatusEnum.succeeded (some paid_at) = some paid_at
resolve_paid_at_for_status now payment PaymentStatusEnum.succeeded none = elim payment.paid_at [
  | some t ↦ some t
  | none ↦ some now
]
resolve_paid_at_for_status now payment PaymentStatusEnum.refunded paid_at = payment.paid_at
resolve_paid_at_for_status now payment PaymentStatusEnum.pending paid_at = none
resolve_paid_at_for_status now payment PaymentStatusEnum.failed paid_at = none

-- The writes of a change of status: the payment, the log and the outbox.
unfoldable pub write_payment_status :
    Env → Payment → PaymentStatusEnum → Option ℕ → String → Option ℕ → Option String → Exec Payment
write_payment_status env payment status actor_id action paid_at payload_extra = do
  let changed =
      with_payment_status payment status
        (resolve_paid_at_for_status (env.clock 0) payment status paid_at)
  modify (λ d. record d { payments = save payment_key changed d.payments })
  create_audit_log actor_id
      (payment_status action changed.id payment.status status changed.paid_at payload_extra)
  create_outbox_event (env.uuid4 0) (env.clock 1)
      (payment_status_updated changed.id payment.status status)
  pure changed

unfoldable pub set_payment_status :
    Env → Payment → PaymentStatusEnum → Option ℕ → String → Option ℕ → Option String → Exec Payment
set_payment_status env payment status actor_id action paid_at payload_extra =
    if same status payment.status then pure payment else do
      raise_if (not (allowed_transition payment.status status))
          (business "Invalid payment status transition: {previous_status} -> {status}")
      write_payment_status env payment status actor_id action paid_at payload_extra

unfoldable pub update_payment_status : Env → ℕ → PaymentStatusEnum → User → Exec Payment
update_payment_status env payment_id status actor = do
  raise_if (not (is_admin actor.role)) (unauthorized "Only admin can update payment status")
  payment ← or_raise (← get_payment_by_id payment_id) (not_found "Payment not found")
  set_payment_status env payment status (some actor.id) "billing.payment.status.update" none none
