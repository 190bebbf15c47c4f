-- ===== src/Engine.antt =====
-- src/engine: the thread that runs every task, the session of the book, and the mapping to the contract.
pub mod Checks
pub mod Convert
pub mod Laws
pub mod Map
pub mod Objects
pub mod Session
pub mod Worker
