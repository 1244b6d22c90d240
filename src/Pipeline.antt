-- ===== src/Pipeline.antt =====
-- internal/config and internal/pipeline: the project pipeline with its Clarity Gate, and the part of
-- internal/tools/clarify.go that scores a round of answers.
pub mod Config
pub mod Machine
pub mod Clarity
pub mod Clarify
