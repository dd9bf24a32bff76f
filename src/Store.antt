-- ===== src/Store.antt =====
-- The data that the services share: app/core/enums.py, the ORM models of app/modules/*/models.py,
-- the exceptions of app/shared/exceptions.py, and the session of app/core/database.py.
pub mod Enums
pub mod BookingStatus
pub mod PackageStatus
pub mod PaymentStatus
pub mod LessonStatus
pub mod Rows
pub mod Events
pub mod Session
pub mod Ends
pub mod Settings
pub mod Text
