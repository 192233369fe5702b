-- ===== src/Defs.antt =====
-- The tables of src/defs.
pub mod Commands
pub mod Errors
pub mod Tlvs
mod Tests
