-- ===== src/Tests.antt =====
-- Concrete runs of the model, and each theorem at an input that meets its hypotheses.
mod Wire
mod Sessions
mod Delivery
mod Obf
mod Coding
mod Running
mod Queues
mod Flow
mod Endings
mod Layers
mod Crossing
mod Tunnel
mod Streams
mod Orders
mod Overtaken
mod Pausing
mod Dropping
mod Races
