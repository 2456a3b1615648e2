-- ===== src/AdminApi.antt =====
-- internal/adminapi: the handlers of the administration that change what the worker runs by.
pub mod Accounts
pub mod Proxies
