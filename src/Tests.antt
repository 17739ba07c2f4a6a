-- ===== src/Tests.antt =====
-- The theorems at concrete inputs.
mod Fixtures
mod Lifecycle
mod Worker
mod Components
mod Stores
mod Runs
mod Launching
mod Registering
mod Training
mod Reports
