-- ===== src/Worker.antt =====
-- sandbox-worker/src: the slots of a worker, the leases on them, and the jobs run in a lease.
pub mod Slots
pub mod Lease
pub mod Leases
pub mod Execs
pub mod Ticket
pub mod Authorize
pub mod Egress
