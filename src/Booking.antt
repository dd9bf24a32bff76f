-- ===== src/Booking.antt =====
-- app/modules/booking: the reservation of slots.
pub mod Policy
pub mod Repository
pub mod Service
pub mod Frame
pub mod Ledger
pub mod Machine
pub mod Exclusive
pub mod Effects
pub mod Refund
pub mod Requests
pub mod Confirmation
