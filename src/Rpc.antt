-- ===== src/Rpc.antt =====
-- src/rpc: the gRPC boundary.
pub mod Error
pub mod Handler
pub mod Mutation
pub mod QuerySplits
pub mod Plan
pub mod Session
pub mod Stagings
pub mod Accounts
pub mod Commodities
pub mod Transactions
