-- ===== src/Tests.antt =====
-- The theorems at concrete inputs.
mod Simulated
mod Checksums
mod Frames
mod Handlers
mod Pages
mod Images
mod Memory
mod Contexts
mod Serial
mod Padded
mod Upgraded
mod Programs
mod Rounds
mod Waking
mod Received
