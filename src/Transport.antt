-- ===== src/Transport.antt =====
-- The connections of src/transport.rs: the subscribers of IOPub, the table of peers, what a ROUTER peer
-- reads, and replies. A channel is its number; sockets and their frames are answers.
pub mod Subscribers
pub mod Peers
pub mod Reading
