-- ===== src/Ros2Bridge.antt =====
-- The ROS 2 bridge (ros2_bridge/src/ros2_bridge.cpp, include/ros2_bridge.hpp).
pub mod Qos
pub mod Policies
pub mod State
pub mod Subscriptions
pub mod Publications
pub mod Topics
pub mod Services
pub mod Handlers
pub mod Invariant
pub mod Stale
pub mod Latest
pub mod Advertised
pub mod Assets
pub mod RoundTrip
pub mod Offered
pub mod Host
pub mod Agreement
pub mod Polling
pub mod Run
pub mod Quiet
pub mod Handling
pub mod Coherence
pub mod Together
