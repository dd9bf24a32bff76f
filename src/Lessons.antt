-- ===== src/Lessons.antt =====
-- app/modules/lessons: the lessons of confirmed bookings.
pub mod Repository
pub mod Service
pub mod Moderation
pub mod Report
pub mod Moderated
pub mod Once
