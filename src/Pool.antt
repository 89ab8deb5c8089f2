-- ===== src/Pool.antt =====
-- The connection pool (neo4j/_sync/io/_pool.py).
pub mod State
pub mod Ops
pub mod Rules
pub mod Bound
pub mod Use
pub mod System
pub mod Checked
pub mod Rounds
pub mod Invariant
pub mod Acquire
pub mod Errors
mod Tests
