-- ===== src/Net/Examples.antt =====
-- Runs of the library and its theorems at concrete states. This parent only lists the parts.
mod Kernel
mod Stream
mod Life
mod Failure
mod Destroy
mod Delete
mod Due
mod Fini
mod Order
mod Resolve
