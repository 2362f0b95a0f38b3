-- ===== src/Net.antt =====
-- The library's state and its handlers, after src/mnet_core.c: mnet_t, s_chann and the functions on
-- them. This parent only lists the parts.
pub mod State
pub mod Env
pub mod Ext
pub mod Event
pub mod Timer
pub mod Chann
pub mod Send
pub mod Poll
pub mod Api
pub mod Dgram
pub mod Init
pub mod Address
pub mod Hooks
pub mod Quiet
mod Examples
