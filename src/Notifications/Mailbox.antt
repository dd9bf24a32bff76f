-- ===== src/Notifications/Mailbox.antt =====
-- The notifications (app/modules/notifications/models.py, repository.py), under their idempotency
-- keys, and the calls of the delivery client.
use guitar_online.Base.{
  ℕ, Bool, true, false, ◌&&◌, Option, none, List, [], ◌∷◌, ◌==◌, if◌then◌else◌, first_match,
}
use guitar_online.Store.Enums.{NotificationStatusEnum}
use guitar_online.Notifications.Messages.{NotificationMessage, template_code}

-- `_build_notification_idempotency_key`: the parts of the text, which is shorter than its limit of
-- 191 characters.
pub record Key : Type 0 where
  pub event_id : ℕ
  pub user_id : ℕ
  pub template : ℕ
  pub index : ℕ

abbrev pub same_key : Key → Key → Bool
same_key k l =
    k.event_id == l.event_id
    && k.user_id == l.user_id
    && k.template == l.template
    && k.index == l.index

abbrev pub idempotency_key : ℕ → ℕ → NotificationMessage → Key
idempotency_key event_id message_index m = record {
  event_id = event_id;
  user_id = m.user_id;
  template = template_code m.content;
  index = message_index;
}

pub record Notification : Type 0 where
  pub key : Key
  pub message : NotificationMessage
  pub status : NotificationStatusEnum
  pub sent_at : Option ℕ

abbrev pub is_sent : NotificationStatusEnum → Bool
is_sent NotificationStatusEnum.sent = true
is_sent _ = false

-- What the delivery client does with a message.
pub data Attempt : Type 0 where
  delivered refused raised : Attempt

-- The client, told how many calls it has had.
abbrev pub DeliveryClient : Type 0
DeliveryClient = ℕ → NotificationMessage → Attempt

pub record Mailbox : Type 0 where
  pub notifications : List Notification
  -- the calls of `delivery_client.send`, newest first
  pub sends : List NotificationMessage

abbrev pub has_key : Key → Notification → Bool
has_key k n = same_key k n.key

abbrev pub get_by_idempotency_key : Key → List Notification → Option Notification
get_by_idempotency_key k ns = first_match (has_key k) ns

abbrev pub create_notification : Key → NotificationMessage → Notification
create_notification key message = record {
  key = key;
  message = message;
  status = NotificationStatusEnum.pending;
  sent_at = none;
}

-- `set_status` of the row that was loaded under a key; the column is unique.
unfoldable pub set_status :
    Key → NotificationStatusEnum → Option ℕ → List Notification → List Notification
set_status k status sent_at [] = []
set_status k status sent_at (n ∷ ns) =
    if has_key k n
    then record n { status = status; sent_at = sent_at } ∷ ns
    else n ∷ set_status k status sent_at ns
