-- ===== src/Proxy.antt =====
-- internal/proxy: what becomes of a request.
pub mod Decision
pub mod ClientIp
pub mod Framing
pub mod Guard
pub mod Upload
pub mod Protocols
pub mod Serve
pub mod Samples
