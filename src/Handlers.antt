-- ===== src/Handlers.antt =====
-- main.c: the callbacks that FUSE makes, and the handler of the events of the vdir. Each takes the
-- lock first and gives it back last, so a handler is one step on the mount; its arena lives no
-- longer than the call.
pub mod Writable
pub mod Attributes
pub mod Content
pub mod Nodes
pub mod Events
pub mod Listing
pub mod Start
pub mod Missing
