-- ===== src/Chain.antt =====
-- The rules of deskachain/node/internal/chain: difficulty, work and locators, mining, and the
-- checks of blocks and chains.
pub mod Difficulty
pub mod Retarget
pub mod Work
pub mod Pow
pub mod Genesis
pub mod Resources
pub mod Stats
pub mod Validation
pub mod Whole
pub mod Locator
pub mod Ancestor
