-- ===== src/Tests.antt =====
-- The theorems at concrete inputs: one wait through its life, a small policy, a grant and a log.
mod Waits
mod Acts
mod Policies
mod Holdings
mod Chains
mod Deliveries
mod Accesses
