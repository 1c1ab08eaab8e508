-- ===== src/Compat.antt =====
-- crust/src/compat: the message-passing layer over the futures.
pub mod Event
pub mod Map
pub mod Service
