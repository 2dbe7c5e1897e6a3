-- ===== src/Resp.antt =====
-- Core/Protocol/Resp: the RESP replies, the parser and the protocol handler.
pub mod Reply
pub mod Parser
pub mod Handler
