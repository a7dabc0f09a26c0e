-- ===== src/Relay.antt =====
-- app/proxy/websocket.py: the Responses stream over a WebSocket.
pub mod Lines
pub mod Attempts
pub mod Entry
pub mod Order
pub mod Single
pub mod Delivered
mod Tests
