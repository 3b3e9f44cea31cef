-- ===== src/Client.antt =====
-- src/client.rs and src/request.rs: the client, which joins configuration, keys, adapter and
-- envelopes, and its request builder.
pub mod Calls
pub mod Request
pub mod Sound
pub mod Printable
pub mod Delivery
pub mod Pinned
