-- ===== src/Completions.antt =====
-- app/proxy/chat_completions.py: the chat route, its three ways upstream, and their usage rows.
pub mod Answers
pub mod Native
pub mod Handlers
pub mod Entry
pub mod Rows
pub mod Translated
pub mod Metered
pub mod Guards
mod Tests
