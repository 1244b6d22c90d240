-- ===== src/Updater.antt =====
-- internal/updater/updater.go: the check for a new version and the update of the executable.
pub mod Version
pub mod Install
