-- ===== src/Store/Settings.antt =====
-- The settings that the services read (app/core/config.py), with the validated defaults.
use guitar_online.Base.{ℕ, Bool, List, String}

pub record Settings : Type 0 where
  pub booking_hold_minutes : ℕ
  pub booking_refund_window_hours : ℕ
  pub slot_min_duration_minutes : ℕ
  pub slot_bulk_create_max_slots : ℕ

abbrev pub default_settings : Settings
default_settings = record {
  booking_hold_minutes = 10;
  booking_refund_window_hours = 24;
  slot_min_duration_minutes = 30;
  slot_bulk_create_max_slots = 1000;
}

-- Those of the authentication; `secret_key` is given with the signing functions.
pub record AuthSettings : Type 0 where
  pub auth_self_registration_enabled : Bool
  pub access_token_expire_minutes : ℕ
  pub refresh_token_expire_days : ℕ
  pub admin_role_manager_emails : List String
