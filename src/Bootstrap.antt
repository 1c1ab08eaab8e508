-- ===== src/Bootstrap.antt =====
-- crust/src/net/peer/connect: bootstrapping, on both sides of the connection.
pub mod Accept
pub mod Try
pub mod Search
pub mod Acceptor
pub mod Both
