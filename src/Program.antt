-- ===== src/Program.antt =====
-- The bridge program, peat-sapient-bridge/src. Socket addresses and paths are texts.
pub mod Config
pub mod Peer
pub mod Start
pub mod Main
