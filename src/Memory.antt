-- ===== src/Memory.antt =====
-- internal/memory: the persistent memory, a SQLite database behind SQL statements. Each statement of
-- the source is a function on lists of rows here.
pub mod Types
pub mod Text
pub mod Observations
pub mod Relations
pub mod Graph
pub mod Detail
pub mod Recent
pub mod Timeline
pub mod Search
pub mod Suggest
pub mod Passive
pub mod Format
pub mod Transfer
pub mod Prompts
pub mod Steps
