-- ===== src/Scenarios.antt =====
-- Concrete stores, messages and a small curve, on which the theorems are applied.
pub mod SmallCurve
pub mod Data
pub mod Formats
pub mod States
pub mod Handlers
pub mod Registry
pub mod Coordinator
pub mod Crypto
pub mod Decrypt
pub mod Contribute
pub mod Ante
