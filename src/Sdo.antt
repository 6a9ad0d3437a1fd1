-- ===== src/Sdo.antt =====
-- zencan-common/src/sdo.rs: the messages of the SDO protocol and their bytes.
pub mod Abort
pub mod Wire
pub mod Request
pub mod Segment
pub mod Response
