-- ===== src/Stages.antt =====
-- internal/tools: the handlers that lead a project through its stages (init.go, principles.go,
-- charter.go, specify.go, business_rules.go, clarify.go, design.go, tasks.go, validate.go) over the files
-- of a project.
pub mod Files
pub mod Documents
pub mod Steps
pub mod Requests
pub mod Tools
pub mod Gate
pub mod Position
pub mod Written
pub mod Refined
pub mod Moves
pub mod Run
pub mod Forward
pub mod Finish
pub mod Ending
pub mod Bootstrap
