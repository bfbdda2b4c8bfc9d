-- ===== src/Gateway.antt =====
-- The gateway package (gateway/gateway.go, gateway/handler.go): a realtime session over wsconn.
pub mod JoinError
pub mod Backoff
pub mod JoinBook
pub mod Codec
pub mod Client
pub mod Frames
pub mod Heartbeat
pub mod Session
pub mod Manage
pub mod Lifecycle
pub mod Events
pub mod Dialing
pub mod Dispatch
mod Examples
