-- ===== src/Responses.antt =====
-- app/proxy/chat_completions.py: the translation between Chat Completions and the Responses API.
-- `dumps` is `json.dumps`, `render` is `str` of a value that is no text.
pub mod Tools
pub mod Content
pub mod Items
pub mod Body
pub mod Reply
pub mod Stream
pub mod Run
pub mod Declarations
pub mod Spelling
pub mod HandedBack
mod Tests
