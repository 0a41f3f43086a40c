-- ===== src/Proxy.antt =====
-- The proxies that campaigns connect through: who holds which endpoint, and which are resting.
pub mod Runtime
pub mod Selection
pub mod Leases
pub mod Locks
pub mod Coordinator
pub mod Sessions
pub mod BrowserPool
pub mod Circuit
pub mod Admission
