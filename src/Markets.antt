-- ===== src/Markets.antt =====
-- The market configuration under markets/bend.
pub mod Rates
pub mod Reserves
pub mod Nfts
pub mod Addresses
pub mod Assets
pub mod Commons
pub mod Bend
