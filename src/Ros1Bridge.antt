-- ===== src/Ros1Bridge.antt =====
-- The ROS 1 bridge (ros1_bridge/src): the nodelet's handlers and updates, and the conversion of parameters.
pub mod Conversion
pub mod RoundTrip
pub mod State
pub mod Parameters
pub mod Allowlist
pub mod Setting
pub mod Subscriptions
pub mod Publications
pub mod Topics
pub mod Services
pub mod Assets
pub mod Updates
pub mod Backoff
pub mod Requests
pub mod Current
pub mod Sets
pub mod Agreement
