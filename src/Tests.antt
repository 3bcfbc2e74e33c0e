-- ===== src/Tests.antt =====
-- The theorems at concrete inputs, and runs of the model.
mod Frames
mod Slices
mod Streams
mod Compression
mod Peer
mod Connections
