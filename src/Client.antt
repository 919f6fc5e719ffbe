-- ===== src/Client.antt =====
-- The library that a client links: src/router/src/router_lib.c.
pub mod Desc
pub mod Key
pub mod Session
pub mod Table
pub mod Exchange
mod Tests
