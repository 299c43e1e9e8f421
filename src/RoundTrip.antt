-- ===== src/RoundTrip.antt =====
-- The text protocol read back: what the reply of a datanode (socket_command.c) tells the client
-- (client.c). Buffer has the lemmas on numbers and receiving buffers, Exchange those on an exchange
-- that brings a reply; the other children treat the operations.
pub mod Buffer
pub mod Exchange
pub mod Status
pub mod Open
pub mod Stale
pub mod Link
pub mod Attr
pub mod Flag
pub mod Write
pub mod Read
pub mod Dir
