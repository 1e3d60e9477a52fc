-- ===== src/Server.antt =====
-- The WebSocket server, cobridge_base/include/websocket_server.hpp, a module for each group of
-- member functions, and below them the modules that prove something of them.
pub mod Types
pub mod Environment
pub mod Channels
pub mod Frames
pub mod Parameters
pub mod Graph
pub mod Sessions
pub mod Subscriptions
pub mod Dispatch
pub mod Requests
pub mod Invariant
