-- ===== src/Plugins/Sane.antt =====
-- Every plugin makes parameters that can be written line by line: the rules, and one module for each
-- kind of plugin.
pub mod Input
pub mod Filter
pub mod Output
pub mod Parser
pub mod Returns
