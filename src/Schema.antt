-- ===== src/Schema.antt =====
-- schema/utils.go, schema/naming.go and schema/index.go: the settings in a field's tag, the names of tables and
-- columns, and the indexes that tags ask for.
pub mod Texts
pub mod Tags
pub mod Naming
pub mod Indexes
