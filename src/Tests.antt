-- ===== src/Tests.antt =====
-- Runs of the model on concrete inputs, with the data they share.
pub mod Data
mod Assets
mod Transactions
mod Ledgers
mod Chains
mod Validation
mod Roots
mod Stores
mod Snapshots
mod Selections
mod Addresses
mod Legacy
mod Pools
