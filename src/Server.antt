-- ===== src/Server.antt =====
pub mod Redirect
pub mod Routing
pub mod Handlers
pub mod Headers
pub mod Runtime
