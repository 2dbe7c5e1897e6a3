-- ===== src/Http.antt =====
-- Core/Protocol/Http: requests and responses, the parser, and the handler of a connection.
pub mod Message
pub mod Parser
pub mod Handler
