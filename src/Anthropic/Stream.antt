-- ===== src/Anthropic/Stream.antt =====
-- app/proxy/chat_to_anthropic.py: `stream_anthropic_to_completions`, Anthropic's event stream as
-- Chat Completions chunks. The lines come as a list, with a mark that says whether the transport
-- or the caller broke off after the last one. `loads` is `json.loads`.
pub mod State
pub mod Events
pub mod Run
pub mod Terminator
pub mod Outcome
pub mod Numbering
pub mod HighWater
pub mod Unnamed
mod Tests
