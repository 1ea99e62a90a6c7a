-- ===== src/Utilities.antt =====
-- code/Utilities: the parts that the agent shares.
pub mod DependencySort
pub mod Strings
pub mod DateTime
pub mod Version
