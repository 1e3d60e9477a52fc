-- ===== src/Tests.antt =====
-- The theorems at concrete inputs, and the setting that they share.
mod Setting
pub mod Formats
pub mod Runs
pub mod Answers
pub use Setting.*
pub mod Queue
pub mod Definitions
pub mod Bridge
pub mod Nodes
pub mod Ros1
