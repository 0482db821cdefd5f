-- ===== src/Watcher.antt =====
-- cmd/fluent-bit-watcher/main.go: the process that runs Fluent Bit, restarts it with a back-off delay,
-- and stops it when its configuration changes.
pub mod Backoff
pub mod Config
pub mod Process
pub mod Machine
