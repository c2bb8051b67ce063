-- ===== src/Conversation.antt =====
-- src/conversation: the noise filter for transcripts, and the inference of who speaks.
pub mod Text
pub mod Speaker
pub mod Guard
