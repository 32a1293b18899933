-- ===== src/Examples.antt =====
-- The theorems, applied to the incident of Samples.
mod Coordination
mod Execution
mod Review
mod Signing
mod Storage
mod Telling
mod Runs
mod Incoming
mod Caching
mod Calls
mod Checks
