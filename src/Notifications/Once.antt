-- ===== src/Notifications/Once.antt =====
-- A message that was sent is not sent again.
use guitar_online.Base.{
  ℕ, suc, ◌≡◌, refl, ◌∙◌, ◌⊎◌, Bool, true, false, Option, none, some, List, [], ◌∷◌, length, arith,
  first_match, Bool-cases, Option-cases, inl, inr,
}
use guitar_online.Store.Enums.{NotificationStatusEnum}
use guitar_online.Notifications.Messages.{NotificationMessage}
use guitar_online.Notifications.Mailbox.{
  Key, same_key, idempotency_key, Notification, is_sent, Attempt, delivered, refused, raised,
  DeliveryClient, Mailbox, get_by_idempotency_key, create_notification, set_status,
}
use guitar_online.Notifications.Worker.{
  Outcome, skipped, dispatched, failed, ensure_notification, already_sent, after_attempt, deliver,
  Round, go_on, deliver_all,
}

-- The status under a key is SENT.
abbrev sent_under : Key → List Notification → Bool
sent_under k ns = elim (get_by_idempotency_key k ns) [ none ↦ false | some n ↦ is_sent n.status ]

same_key→eq : (k l : Key) → same_key k l ≡ true → k ≡ l
same_key→eq k l h = ground arith

same_key_self : (k : Key) → same_key k k ≡ true
same_key_self k = ground arith

-- Writing under a key that is there.
sent-set_self :
    (k : Key) (st : NotificationStatusEnum) (t : Option ℕ) (n : Notification)
    (ns : List Notification)
    → get_by_idempotency_key k ns ≡ some n
    → sent_under k (set_status k st t ns) ≡ is_sent st
unfolding first_match set_status
sent-set_self k st t n [] h = cc
sent-set_self k st t n (m ∷ ns) h = ground (arith, sent-set_self k st t n ns)

-- Writing under another key.
sent-set_ne :
    (l k : Key) (st : NotificationStatusEnum) (t : Option ℕ) (ns : List Notification)
    → same_key l k ≡ false
    → sent_under l (set_status k st t ns) ≡ sent_under l ns
unfolding first_match set_status
sent-set_ne l k st t [] h = refl
sent-set_ne l k st t (m ∷ ns) h = ground (arith, sent-set_ne l k st t ns h)

-- Creating a row under an absent key makes no key SENT, and loses none.
sent-create :
    (l k : Key) (m : NotificationMessage) (ns : List Notification)
    → get_by_idempotency_key k ns ≡ none
    → sent_under l (create_notification k m ∷ ns) ≡ sent_under l ns
unfolding first_match
sent-create l k m ns e = elim (Bool-cases (same_key l k)) [
  | inl hit ↦ ground (arith, same_key→eq l k hit)
  | inr miss ↦ ground arith
]

sent-ensure :
    (l k : Key) (m : NotificationMessage) (box : Mailbox)
    → sent_under l (ensure_notification k m box).notifications ≡ sent_under l box.notifications
sent-ensure l k m box = elim (Option-cases (get_by_idempotency_key k box.notifications)) [
  | inl e ↦ rw (e, ensure_notification) (sent-create l k m box.notifications e)
  | inr (n, e) ↦ rw (e, ensure_notification) refl
]

ensure_present :
    (k : Key) (m : NotificationMessage) (box : Mailbox)
    → (n : Notification) × (get_by_idempotency_key k (ensure_notification k m box).notifications
        ≡ some n)
unfolding first_match
ensure_present k m box = elim (Option-cases (get_by_idempotency_key k box.notifications)) [
  | inl e ↦ (create_notification k m, ground (arith, same_key_self k))
  | inr (n, e) ↦ (n, rw (e, ensure_notification) e)
]

-- A call of the client for a key that is not SENT keeps the others.
attempt_ne :
    (a : Attempt) (now : ℕ) (l k : Key) (m : NotificationMessage) (box : Mailbox)
    → same_key l k ≡ false
    → sent_under l (after_attempt k m now a box).1.notifications ≡ sent_under l box.notifications
attempt_ne delivered now l k m box miss = sent-set_ne l k _ _ box.notifications miss
attempt_ne refused now l k m box miss = sent-set_ne l k _ _ box.notifications miss
attempt_ne raised now l k m box miss = sent-set_ne l k _ _ box.notifications miss

attempt-keeps :
    (a : Attempt) (now : ℕ) (l k : Key) (m : NotificationMessage) (box : Mailbox)
    → sent_under k box.notifications ≡ false
    → sent_under l box.notifications ≡ true
    → sent_under l (after_attempt k m now a box).1.notifications ≡ true
attempt-keeps a now l k m box unsent h = elim (Bool-cases (same_key l k)) [
  | inl hit ↦ absurd (ground (arith, unsent, h, same_key→eq l k hit))
  | inr miss ↦ attempt_ne a now l k m box miss ∙ h
]

attempt_done :
    (a : Attempt) (now : ℕ) (k : Key) (m : NotificationMessage) (n : Notification) (box : Mailbox)
    → get_by_idempotency_key k box.notifications ≡ some n
    → ((after_attempt k m now a box).0 ≡ failed)
      ⊎ (sent_under k (after_attempt k m now a box).1.notifications ≡ true)
attempt_done delivered now k m n box e = inr (sent-set_self k _ _ n box.notifications e)
attempt_done refused now k m n box e = inl refl
attempt_done raised now k m n box e = inl refl

-- What a delivery does for any key.
deliver-keeps :
    (client : DeliveryClient) (now : ℕ) (l k : Key) (m : NotificationMessage) (box : Mailbox)
    → sent_under l box.notifications ≡ true
    → sent_under l (deliver client now k m box).1.notifications ≡ true
unfolding deliver
deliver-keeps client now l k m box h =
    elim (Bool-cases (already_sent k (ensure_notification k m box))) [
      | inl sent ↦ rw sent (sent-ensure l k m box ∙ h)
      | inr unsent ↦ rw unsent (
          attempt-keeps (client (length box.sends) m) now l k m (ensure_notification k m box) unsent
            (sent-ensure l k m box ∙ h))
    ]

deliver_done :
    (client : DeliveryClient) (now : ℕ) (k : Key) (m : NotificationMessage) (box : Mailbox)
    → ((deliver client now k m box).0 ≡ failed)
      ⊎ (sent_under k (deliver client now k m box).1.notifications ≡ true)
unfolding deliver
deliver_done client now k m box = elim (Bool-cases (already_sent k (ensure_notification k m box))) [
  | inl sent ↦ rw sent (inr sent)
  | inr unsent ↦ rw unsent (
      let (n, e) = ensure_present k m box in
      attempt_done (client (length box.sends) m) now k m n (ensure_notification k m box) e)
]

-- Nothing is left to do for a key that is SENT.
ensure_again :
    (k : Key) (m : NotificationMessage) (box : Mailbox)
    → sent_under k box.notifications ≡ true
    → ensure_notification k m box ≡ box
ensure_again k m box h = elim (Option-cases (get_by_idempotency_key k box.notifications)) [
  | inl e ↦ absurd (ground (arith, h, e))
  | inr (n, e) ↦ rw (e, ensure_notification) refl
]

deliver_again :
    (client : DeliveryClient) (now : ℕ) (k : Key) (m : NotificationMessage) (box : Mailbox)
    → sent_under k box.notifications ≡ true
    → deliver client now k m box ≡ (skipped, box)
unfolding deliver
deliver_again client now k m box h = rw (ensure_again k m box h, h) refl

-- All messages of an event, from an index on, are SENT.
unfoldable pub AllSent : ℕ → ℕ → List NotificationMessage → Mailbox → Type 0
AllSent event_id index [] box = Unit
AllSent event_id index (m ∷ rest) box =
    (sent_under (idempotency_key event_id index m) box.notifications ≡ true)
    × AllSent event_id (suc index) rest box

go_on-keeps :
    (l : Key) (count : ℕ) (o : Outcome × Mailbox) (rest : ℕ → Mailbox → Round)
    → ((c : ℕ) (b : Mailbox)
        → sent_under l b.notifications ≡ true
        → sent_under l (rest c b).box.notifications ≡ true)
    → sent_under l o.1.notifications ≡ true
    → sent_under l (go_on count o rest).box.notifications ≡ true
go_on-keeps l count (skipped, box) rest f h = f count box h
go_on-keeps l count (dispatched, box) rest f h = f (suc count) box h
go_on-keeps l count (failed, box) rest f h = h

deliver_all-keeps :
    (client : DeliveryClient) (now : ℕ → ℕ) (event_id index count : ℕ) (l : Key)
    (ms : List NotificationMessage) (box : Mailbox)
    → sent_under l box.notifications ≡ true
    → sent_under l (deliver_all client now event_id index count ms box).box.notifications ≡ true
unfolding deliver_all
deliver_all-keeps client now event_id index count l [] box h = h
deliver_all-keeps client now event_id index count l (m ∷ rest) box h =
    go_on-keeps l count _ _ (λ c b. deliver_all-keeps client now event_id (suc index) c l rest b)
      (deliver-keeps client (now count) l (idempotency_key event_id index m) m box h)

module _ (event_id index : ℕ) (m : NotificationMessage) (ms : List NotificationMessage) where
  go_on-AllSent :
      (count : ℕ) (o : Outcome × Mailbox) (rest : ℕ → Mailbox → Round)
      → (o.0 ≡ failed) ⊎ (sent_under (idempotency_key event_id index m) o.1.notifications ≡ true)
      → ((c : ℕ) (b : Mailbox)
          → sent_under (idempotency_key event_id index m) b.notifications ≡ true
          → sent_under (idempotency_key event_id index m) (rest c b).box.notifications ≡ true)
      → ((c : ℕ) (b : Mailbox)
          → (rest c b).done ≡ true
          → AllSent event_id (suc index) ms (rest c b).box)
      → (go_on count o rest).done ≡ true
      → AllSent event_id index (m ∷ ms) (go_on count o rest).box
  unfolding AllSent
  go_on-AllSent count (skipped, box) rest (inl no_way) keeps f h = ground (arith, no_way)
  go_on-AllSent count (skipped, box) rest (inr sent) keeps f h =
      (keeps count box sent, f count box h)
  go_on-AllSent count (dispatched, box) rest (inl no_way) keeps f h = ground (arith, no_way)
  go_on-AllSent count (dispatched, box) rest (inr sent) keeps f h =
      (keeps (suc count) box sent, f (suc count) box h)
  go_on-AllSent count (failed, box) rest o keeps f h = absurd (ground (arith, h))

pub deliver_all-AllSent :
    (client : DeliveryClient) (now : ℕ → ℕ) (event_id index count : ℕ)
    (ms : List NotificationMessage) (box : Mailbox)
    → (deliver_all client now event_id index count ms box).done ≡ true
    → AllSent event_id index ms (deliver_all client now event_id index count ms box).box
unfolding deliver_all AllSent
deliver_all-AllSent client now event_id index count [] box h = tt
deliver_all-AllSent client now event_id index count (m ∷ ms) box h =
    go_on-AllSent event_id index m ms count _ _
      (deliver_done client (now count) (idempotency_key event_id index m) m box)
      (λ c b.
        deliver_all-keeps client now event_id (suc index) c (idempotency_key event_id index m) ms b)
      (λ c b. deliver_all-AllSent client now event_id (suc index) c ms b) h

deliver_all_again :
    (client : DeliveryClient) (now : ℕ → ℕ) (event_id index count : ℕ)
    (ms : List NotificationMessage) (box : Mailbox)
    → AllSent event_id index ms box
    → deliver_all client now event_id index count ms box
      ≡ record { done = true; count = count; box = box }
unfolding deliver_all AllSent
deliver_all_again client now event_id index count [] box h = refl
deliver_all_again client now event_id index count (m ∷ ms) box h =
    rw (deliver_again client (now count) (idempotency_key event_id index m) m box h.0)
      (deliver_all_again client now event_id (suc index) count ms box h.1)

-- Once the loop over an event's messages has come to its end, another pass over the event comes to
-- its end too, calls no client and changes nothing, whatever client and clock it has: each message
-- is sent once.
pub deliver_all_twice :
    (client client' : DeliveryClient) (now now' : ℕ → ℕ) (event_id : ℕ)
    (ms : List NotificationMessage) (box : Mailbox)
    → (deliver_all client now event_id 0 0 ms box).done ≡ true
    → deliver_all client' now' event_id 0 0 ms (deliver_all client now event_id 0 0 ms box).box
      ≡ record { done = true; count = 0; box = (deliver_all client now event_id 0 0 ms box).box }
deliver_all_twice client client' now now' event_id ms box h =
    deliver_all_again client' now' event_id 0 0 ms _
      (deliver_all-AllSent client now event_id 0 0 ms box h)
