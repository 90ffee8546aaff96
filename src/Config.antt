-- ===== src/Config.antt =====
-- go/internal/config/config.go: the settings, how they are read and what they promise.
pub mod Env
pub mod Settings
pub mod Validate
pub mod App
pub mod Load
pub mod Tests
