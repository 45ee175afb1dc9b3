-- ===== src/Smux/Session/Delivery.antt =====
-- Data from a Write on one side to a Read on the other.
pub mod Opening
pub mod Demux
pub mod Ending
pub mod Receive
pub mod Wire
pub mod Reads
pub mod Pausing
pub mod Dropping
