-- ===== src/Tests.antt =====
-- Concrete configurations, clients, requests, pools, frames and replies, and what the theorems say
-- of them.
pub mod Data
pub mod Commands
pub mod Requests
pub mod Connections
pub mod Frames
pub mod Clients
pub mod Replies
pub mod Responses
pub mod ConfFile
pub mod Settings
pub mod Logs
pub mod Trees
pub mod Workers
