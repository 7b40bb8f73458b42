-- ===== src/Scheduler.antt =====
-- src/scheduler.ts: the parts of the scheduler.
pub mod Dates
pub mod Slots
pub mod Place
pub mod Order
pub mod Windows
pub mod Capacity
pub mod Plan
pub mod Create
pub mod Samples
mod Witnesses
