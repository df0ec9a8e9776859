-- ===== src/Tests.antt =====
-- The theorems at concrete inputs: a run of the graph, a store with two organisations, and the
-- small machines beside them.
mod Fixtures
mod Stores
mod Investigation
mod Gates
mod Tenants
mod Trail
mod Machines
mod Turns
mod Admissions
mod Replies
mod Desk
