-- ===== src/Lua.antt =====
-- The library as a module of Lua: extension/lua/mnet_lua.c. A function of the module is a step on the
-- library that takes the arguments off the stack of Lua and leaves results or raises an error.
pub mod World
pub mod Library
pub mod Chann
pub mod Module
pub mod Arguments
pub mod Handles
pub mod Life
mod Examples
