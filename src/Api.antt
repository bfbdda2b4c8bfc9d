-- ===== src/Api.antt =====
-- The root package: requests and their retries, API errors, pages, token sources and event streams.
pub mod Errors
pub mod Client
pub mod Requests
pub mod Responses
pub mod Retry
pub mod Oauth
pub mod Pages
pub mod Tokens
pub mod Stream
mod Examples
