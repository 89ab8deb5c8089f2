-- ===== src/Bolt.antt =====
-- The states of a Bolt connection (neo4j/_sync/io/_bolt3.py, _bolt5.py).
pub mod States
pub mod Ready
pub mod Responses
pub mod Summaries
pub mod Handshake
pub mod Connection
mod Tests
