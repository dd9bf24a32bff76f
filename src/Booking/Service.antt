-- ===== src/Booking/Service.antt =====
-- app/modules/booking/service.py, a module for each method and the helpers that they share.
pub mod Common
pub mod Hold
pub mod Confirm
pub mod Cancel
pub mod Reschedule
pub mod Expire
