-- ===== src/Streamcoder.antt =====
-- lib/streamcoder: wrappers of a connection.
pub mod Conn
pub mod FlowObf
pub mod FlowStat
pub mod FlowDump
pub mod Coder
