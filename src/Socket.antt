-- ===== src/Socket.antt =====
-- crust/src/net/socket.rs: an infinitely buffered, prioritised message socket over a framed
-- TCP stream, and the task that writes its queue. Payloads are an arbitrary type `D`.
-- Child modules: the write queue, the task, and what is proved of each.
pub mod Queue
pub mod Task
pub mod Front
