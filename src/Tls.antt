-- ===== src/Tls.antt =====
-- The extension for TLS, extension/openssl/mnet_tls.c: the state of a handshake beside each channel,
-- and the callbacks that are registered for channels of type 4.
pub mod World
pub mod Callbacks
pub mod Config
pub mod Link
pub mod Handshake
pub mod Gate
pub mod Data
pub mod Life
pub mod Write
mod Examples
