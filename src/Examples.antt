-- ===== src/Examples.antt =====
-- Runs of the development's theorems on concrete inputs, which show that their hypotheses can hold.
pub mod Changes
pub mod Pipeline
pub mod Memory
pub mod Stages
pub mod Updater
pub mod Answers
pub mod Decisions
pub mod Reads
pub mod Calls
