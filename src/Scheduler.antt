-- ===== src/Scheduler.antt =====
-- internal/scheduler: the choice of a credential for a request, and the leases that bound its use.
pub mod Model
pub mod Eligibility
pub mod Normalize
pub mod Order
pub mod Coordinator
pub mod Ports
pub mod Gather
pub mod Ordering
pub mod Select
pub mod InMemory
mod Sample
mod Running
mod Tests
