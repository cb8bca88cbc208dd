-- ===== src/Types.antt =====
-- The data model of the crate partly-proxy-types, and the types that pass through the proxy.
pub mod Error
pub mod ProxyIo
pub mod Recorded
pub mod Encoding
pub mod Context
