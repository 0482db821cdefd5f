-- ===== src/Config.antt =====
-- api/fluentbitoperator/v1alpha2: the custom resources and the rendering of the configuration.
-- `Write` is what the four `Load` methods share; each has a module, and `Render` puts them together.
pub mod Write
pub mod Input
pub mod Filter
pub mod Output
pub mod Parser
pub mod Service
pub mod Render
pub mod Sections
pub mod Stable
pub mod Reader
pub mod Example
