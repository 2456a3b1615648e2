-- ===== src/App/Sticky.antt =====
-- internal/app/sticky_proxy.go: the address by which an account reaches the provider, and how it is
-- replaced. The parts: what is observed through a proxy, the writes, and the procedure.
pub mod Observe
pub mod Rows
pub mod Config
pub mod Steps
pub mod Rotate
pub mod Maintain
pub mod Isolation
pub mod Accept
pub mod Collided
