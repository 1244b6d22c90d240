-- ===== src/Changes.antt =====
-- internal/changes: the adaptive change pipeline (flows, slugs, state machine, file store) and the
-- two tools of internal/tools that drive it.
pub mod Types
pub mod Flow
pub mod Slug
pub mod Machine
pub mod Decimal
pub mod Store
pub mod Tools
pub mod Decisions
