-- ===== src/Wsconn.antt =====
-- internal/wsconn/wsconn.go: the WebSocket client's frames, messages and closing.
pub mod Outcome
pub mod Frame
pub mod Conn
pub mod Handshake
mod Examples
