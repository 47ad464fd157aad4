-- ===== src/Common.antt =====
-- The data structures and message types of the crate `backend/common`.
pub mod DenseMap
pub mod MostSeen
pub mod NumStats
pub mod MeanList
pub mod Strings
pub mod Parse
pub mod ByteSize
pub mod NodeTypes
pub mod NodeMessage
pub mod MultiMapUnique
pub mod BiMap
pub mod AssignId
pub mod RollingTotal
pub mod InternalMessages
