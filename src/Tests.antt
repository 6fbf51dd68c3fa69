-- ===== src/Tests.antt =====
-- The theorems at concrete inputs, one file for each part of the program.
mod Samples
mod Router
mod Limits
mod Settings
mod Caches
mod Streaming
mod Completions
mod Gateway
mod Serving
mod Running
mod Outages
