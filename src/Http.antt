-- ===== src/Http.antt =====
-- The HTTP messages and the client of Include/http/hpp.
pub mod Message
pub mod Request
pub mod Response
pub mod Client
pub mod Sending
pub mod Chunks
