-- ===== src/Tests.antt =====
-- The theorems at concrete inputs, and the test data.
mod Io
mod Lists
mod Blocks
mod Startup
mod Write
mod Meta
mod Gc
mod Disk
