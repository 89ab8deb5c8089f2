-- ===== src/Time.antt =====
-- Dates, times and durations (neo4j/time/__init__.py) and their hydration
-- (neo4j/_codec/hydration/v1/temporal.py).
pub mod Calendar
pub mod Years
pub mod Date
pub mod Duration
pub mod Clock
pub mod Addition
mod Tests
