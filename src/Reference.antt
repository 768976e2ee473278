-- ===== src/Reference.antt =====
-- test/helpers/utils: the arithmetic with which the tests compute what the contracts should return.
pub mod Math
pub mod Interest
pub mod Rates
pub mod Reserves
pub mod Normalized
pub mod Balances
pub mod Agreement
pub mod Accrual
