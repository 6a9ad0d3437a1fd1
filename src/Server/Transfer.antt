-- ===== src/Server/Transfer.antt =====
-- Whole transfers: what the SDO server promises over a sequence of requests.
pub mod Store
pub mod Plan
pub mod Segment
pub mod LastSegment
pub mod Wrap
pub mod Progress
pub mod Complete
