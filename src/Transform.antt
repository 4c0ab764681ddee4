-- ===== src/Transform.antt =====
-- peat-sapient/src/transform: SAPIENT messages to and from the types of peat-schema.
pub mod Zone
pub mod Utm
pub mod Location
pub mod RangeBearing
pub mod Detection
pub mod Status
pub mod Registration
pub mod Alert
pub mod Task
