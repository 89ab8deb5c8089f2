-- ===== src/Chunking.antt =====
-- Messages in chunks: the Inbox and the Outbox of a connection (neo4j/_sync/io/_common.py).
pub mod Socket
pub mod Buffer
pub mod Inbox
pub mod Outbox
pub mod Framing
pub mod Pieces
pub mod Messages
pub mod Delivery
pub mod Termination
mod Tests
