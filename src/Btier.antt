-- ===== src/Btier.antt =====
-- btier/: the two-tier key-value engine.
pub mod Types
pub mod KeyMap
pub mod Device
pub mod Journal
pub mod ExtentMap
pub mod Engine
pub mod MigrationEngine
