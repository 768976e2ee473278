-- ===== src/Contracts.antt =====
-- The contracts that the scripts configure: the pool, and its configurator.
pub mod NftConfiguration
pub mod Pool
pub mod Checked
pub mod Math
pub mod Interest
pub mod InterestRate
pub mod ReserveLogic
pub mod Tokens
pub mod Configurator
