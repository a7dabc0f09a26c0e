-- ===== src/Anthropic.antt =====
-- app/proxy/chat_to_anthropic.py: Chat Completions to Anthropic Messages and back.
pub mod Counts
pub mod Stream
pub mod Request
pub mod Response
