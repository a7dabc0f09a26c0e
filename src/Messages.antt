-- ===== src/Messages.antt =====
-- app/proxy/anthropic.py: the native Messages route. Bodies are passed on untouched but for a few
-- fields, and the token counts are read off the stream that goes by.
pub mod Bytes
pub mod Sniff
pub mod Chunking
pub mod Alias
pub mod Aliases
pub mod Headers
pub mod Betas
pub mod Body
pub mod Identity
pub mod Route
pub mod Entry
pub mod Metered
mod Tests
