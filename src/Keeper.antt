-- ===== src/Keeper.antt =====
-- The keeper (x/vote/keeper): each operation reads and writes the module's store.
pub mod Rounds
pub mod Nullifiers
pub mod Tree
pub mod Voting
pub mod Tally
pub mod Ceremony
pub mod Registry
pub mod Managers
pub mod Endorsers
pub mod Actions
