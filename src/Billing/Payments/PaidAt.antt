-- ===== src/Billing/Payments/PaidAt.antt =====
-- A payment carries the time it was paid at exactly while it counts as paid.
use guitar_online.Base.{
  ℕ, ◌≡◌, refl, Bool, true, false, ◌||◌, Option, none, some, String, arith, All,
}
use guitar_online.Base.Table.{All-find, All-save}
use guitar_online.Store.Enums.{PaymentStatusEnum}
use guitar_online.Store.PaymentStatus.{is_succeeded, is_refunded, same}
use guitar_online.Store.Rows.{User, Payment, payment_key}
use guitar_online.Store.Session.{Db, Env, Result, ok, err}
use guitar_online.Store.Ends.{
  Ends, Ends-pure, Ends-if, Ends-gets, Ends-or_raise, Ends-raise_if, Ends-modify,
}
use guitar_online.Billing.Payments.Status.{
  allowed_transition, resolve_paid_at_for_status, with_payment_status, write_payment_status,
  set_payment_status, update_payment_status,
}

abbrev pub has_value : Option ℕ → Bool
has_value none = false
has_value (some t) = true

-- SUCCEEDED and REFUNDED payments have been paid, the others not.
abbrev pub IsDated : Payment → Type 0
IsDated p = has_value p.paid_at ≡ (is_succeeded p.status || is_refunded p.status)

resolve-IsDated :
    (now : ℕ) (p : Payment) (status : PaymentStatusEnum) (paid_at : Option ℕ)
    → IsDated p
    → allowed_transition p.status status ≡ true
    → IsDated (with_payment_status p status (resolve_paid_at_for_status now p status paid_at))
resolve-IsDated now p status paid_at h move = ground arith

same-eq : (a b : PaymentStatusEnum) → same a b ≡ true → b ≡ a
same-eq a b h = ground arith

-- What a change of a payment's status leaves behind, where each payment was dated rightly: the
-- payments still are, and one that is returned is so and stands under the status asked for.
abbrev pub Changed : PaymentStatusEnum → Result Payment → Db → Type 0
Changed status (ok p) d = All IsDated d.payments × IsDated p × (p.status ≡ status)
Changed status (err e) d = All IsDated d.payments

write-Changed :
    (env : Env) (p : Payment) (status : PaymentStatusEnum) (actor : Option ℕ) (action : String)
    (paid_at : Option ℕ) (extra : Option String) (d : Db)
    → All IsDated d.payments
    → IsDated p
    → allowed_transition p.status status ≡ true
    → Ends (Changed status) (write_payment_status env p status actor action paid_at extra) d
unfolding write_payment_status
write-Changed env p status actor action paid_at extra d all h move =
    let dated = resolve-IsDated (env.clock 0) p status paid_at h move in
    Ends-modify _ _ (
      Ends-modify _ _ (
        Ends-modify _ _
          (Ends-pure _ (All-save payment_key IsDated _ d.payments all dated, dated, refl))))

pub set_payment_status-Changed :
    (env : Env) (p : Payment) (status : PaymentStatusEnum) (actor : Option ℕ) (action : String)
    (paid_at : Option ℕ) (extra : Option String) (d : Db)
    → All IsDated d.payments
    → IsDated p
    → Ends (Changed status) (set_payment_status env p status actor action paid_at extra) d
unfolding set_payment_status
set_payment_status-Changed env p status actor action paid_at extra d all h =
    Ends-if (same status p.status) _ _ (λ eq. Ends-pure _ (all, h, same-eq status p.status eq))
      λ ne.
        Ends-raise_if _ _ _ (λ _. all)
          λ bad. write-Changed env p status actor action paid_at extra d all h (ground arith)

-- If each payment carries the time it was paid at exactly while it is SUCCEEDED or REFUNDED, then it
-- does after `update_payment_status`, whether that returns or raises; what it returns stands under
-- the status that was asked for.
pub update_payment_status-Changed :
    (env : Env) (id : ℕ) (status : PaymentStatusEnum) (actor : User) (d : Db)
    → All IsDated d.payments
    → Ends (Changed status) (update_payment_status env id status actor) d
unfolding update_payment_status
update_payment_status-Changed env id status actor d all =
    Ends-raise_if _ _ _ (λ _. all)
      λ _. Ends-gets _ _ (
        Ends-or_raise _ _ _ (λ _. all)
          λ p fp.
            set_payment_status-Changed env p status _ _ _ _ d all
              (All-find payment_key IsDated id p d.payments all fp))
