-- ===== src/Deadline.antt =====
-- Deadlines of operations (neo4j/_deadline.py).
pub mod Merge
pub mod Earliest
mod Tests
