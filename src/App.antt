-- ===== src/App.antt =====
-- internal/app: what ties the packages together.
pub mod Recovery
pub mod Proxy
pub mod Repository
pub mod Sticky
pub mod Deploy
pub mod Lifecycle
pub mod Orphans
