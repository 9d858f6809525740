-- ===== src/Dsl/Fields.antt =====
-- rescan/dsl/fields.py: the query vocabulary. `Spec` has its types, `Readers` the functions that
-- read a profile, `Named` the named fields, `Records` the records and `Names` the aliases, the
-- forbidden identifiers and the three resolutions.
pub mod Spec
pub mod Readers
pub mod Named
pub mod Records
pub mod Names
