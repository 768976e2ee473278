-- ===== src/Types.antt =====
-- helpers/types.ts, in five parts.
pub mod Network
pub mod ContractId
pub mod ProtocolError
pub mod Params
pub mod TokenIds
