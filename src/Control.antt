-- ===== src/Control.antt =====
-- The control server: the processes that runs share, the start of campaigns and the choice of their proxies.
pub mod Workers
