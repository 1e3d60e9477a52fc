-- ===== src/ParameterInterface.antt =====
-- The ROS 2 parameter interface (ros2_bridge/src/parameter_interface.cpp): the parameters of other
-- nodes, under names that begin with the node's.
pub mod Names
pub mod Conversion
pub mod State
pub mod Watching
pub mod Setting
pub mod Getting
pub mod Allowed
pub mod Watched
pub mod Subscribing
pub mod Lasting
pub mod Later
pub mod Missed
pub mod Reports
