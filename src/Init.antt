-- ===== src/Init.antt =====
-- helpers/init-helpers.ts: the initialisation and the configuration of the reserves and the NFTs of a
-- market. The log lines are not modelled.
pub mod Reserves
pub mod Nfts
pub mod Chain
