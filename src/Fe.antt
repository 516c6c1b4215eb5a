-- ===== src/Fe.antt =====
-- The web client: fe/src.
pub mod Navigation
pub mod Watch
pub mod App
pub mod Client
pub mod Config
mod Tests
