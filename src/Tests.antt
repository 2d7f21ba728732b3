-- ===== src/Tests.antt =====
-- Runs at fixed inputs.
mod Files
mod Loops
mod Reporting
mod Scanning
mod State
mod Style
