-- ===== src/Wrapper.antt =====
-- The classes for C++ of src/mnet_wrapper.h: ChannAddr, Chann and ChannDispatcher.
pub mod World
pub mod Object
pub mod Loop
pub mod Dispatch
pub mod Accept
pub mod Host
mod Examples
