-- ===== src/Anthropic/Request.antt =====
-- app/proxy/chat_to_anthropic.py: a Chat Completions request as an Anthropic Messages request.
-- `dumps` and `loads` are `json.dumps` and `json.loads`; `mint i j` is the identifier that is made
-- up for call j of message i where the caller gave none.
pub mod Result
pub mod Content
pub mod Tools
pub mod Thinking
pub mod Messages
pub mod Body
pub mod Budget
pub mod Results
pub mod Turns
mod Tests
