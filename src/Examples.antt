-- ===== src/Examples.antt =====
-- The theorems at concrete inputs.
mod Setup
mod Queue
mod Frames
mod Nodes
mod Reports
mod Bridging
mod Meshing
mod Linking
mod Starting
mod Complying
