-- ===== src/Esphome.antt =====
-- internal/esphome
pub mod Command
pub mod Event
pub mod Wire
pub mod Client
