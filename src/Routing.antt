-- ===== src/Routing.antt =====
-- Routing tables and the routing pool (neo4j/_routing.py, neo4j/_sync/io/_pool.py).
pub mod Elements
pub mod Table
pub mod Tables
pub mod Update
pub mod Acquire
pub mod Select
pub mod Deactivate
pub mod Success
pub mod Installed
pub mod Fewest
pub mod Progress
mod Tests
