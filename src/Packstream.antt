-- ===== src/Packstream.antt =====
-- The PackStream codec (neo4j/_codec/packstream).
pub mod Value
pub mod Utf8
pub mod Pack
pub mod Keys
pub mod Unpack
pub mod Reads
pub mod Markers
pub mod Composite
pub mod RoundTrip
pub mod Success
mod Tests
