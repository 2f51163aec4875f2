-- ===== src/Server.antt =====
-- src/server.rs and src/server: the parts of the HTTP server that keep state or decide on a request.
pub mod Operations
pub mod Security
pub mod Answers
pub mod Refresh
pub mod Jobs
pub mod Mutations
pub mod Scope
