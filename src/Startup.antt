-- ===== src/Startup.antt =====
-- How the router starts and ends: the arguments, the shared memory and the two message queues of
-- src/router/src/router.c.
pub mod Args
pub mod Objects
pub mod Ledger
mod Tests
