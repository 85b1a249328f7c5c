-- ===== src/Server.antt =====
-- main.go: the server's configuration, and the handlers that end it.
pub mod Config
pub mod Shutdown
mod Runs
