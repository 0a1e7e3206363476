-- ===== src/Types.antt =====
-- The shared vocabulary of internal/types.
pub mod RequestState
pub mod TaskMethod
pub mod ErrorCode
