-- ===== src/Examples.antt =====
-- The theorems at concrete inputs, and runs of the definitions.
mod Resilience
mod Jobs
mod Droplets
mod Workflow
mod Steps
mod Network
mod Provisioning
mod Scheduler
mod TrafficGuard
mod App
mod Sticky
mod Table
mod Lifecycle
mod Admin
mod Auth
mod Orphans
mod Worker
mod Proxies
