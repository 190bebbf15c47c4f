-- ===== src/Tests.antt =====
-- Concrete instances: each theorem with a hypothesis is applied at an input that meets it.
mod Accounts
mod Toy
mod Protocol
mod Journal
mod Daemon
mod Startup
mod Recovery
mod Queries
mod Plans
mod Sessions
mod Fields
mod Messages
mod Objects
mod Handlers
mod Books
mod Boot
mod Stagings
