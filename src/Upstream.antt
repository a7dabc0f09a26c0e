-- ===== src/Upstream.antt =====
-- app/provider_limits.py and app/azure.py: the calls of an upstream, what is remembered of its
-- replies, and how a body is cut down to what the upstream takes.
pub mod Limits
pub mod Latest
pub mod Retry
pub mod Attempts
pub mod Strip
pub mod Rewrites
pub mod Stripped
pub mod Cleaned
pub mod Sanitized
mod Tests
