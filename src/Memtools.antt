-- ===== src/Memtools.antt =====
-- internal/memtools: the handlers of the memory's tools, on top of the store.
pub mod Progress
pub mod Save
pub mod Handlers
pub mod Calls
