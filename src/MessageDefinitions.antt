-- ===== src/MessageDefinitions.antt =====
-- The message definition cache of the ROS 2 bridge (ros2_bridge/src/message_definition_cache.cpp and
-- cobridge_base/include/message_definition_cache.hpp).
pub mod Sections
pub mod Specs
pub mod Cache
pub mod Loading
pub mod FullText
pub mod Enough
pub mod Termination
pub mod Parts
pub mod Collected
pub mod Closure
pub mod Halves
