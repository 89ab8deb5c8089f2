-- ===== src/Work.antt =====
-- The work that an application has a connection do: results, transactions, sessions and bookmarks
-- (neo4j/_sync/work).
pub mod Results
pub mod Transactions
pub mod Retries
pub mod Bookmarks
mod Tests
