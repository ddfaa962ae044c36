-- ===== src/Scheduler/Tests.antt =====
-- The scheduler on concrete requests, pools and memories: runs of its functions, and the theorems
-- at these inputs.
mod Runs
mod Leases
mod Orders
