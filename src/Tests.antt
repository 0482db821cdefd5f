-- ===== src/Tests.antt =====
-- Instances of the theorems at concrete inputs.
pub mod Names
pub mod Rendering
pub mod Runs
pub mod Plugins
pub mod Helpers
pub mod Controllers
pub mod Operator
pub mod FluentBit
pub mod Files
pub mod Watcher
pub mod Manager
pub mod Delivery
pub mod Effect
pub mod Guard
pub mod DocGen
