-- ===== src/ResponsesRoute.antt =====
-- app/proxy/responses.py: the Responses route, which passes bodies and lines on; and its neighbours
-- app/proxy/compact.py and app/proxy/systemone.py.
pub mod Lines
pub mod Handlers
pub mod Entry
pub mod Compact
pub mod Retried
pub mod Summary
pub mod SystemOne
mod Tests
