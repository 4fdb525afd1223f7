-- ===== src/Oql.antt =====
-- The OQL runtime of packages/oqlos-core/src/oqlos/core: variables and the parser of blocks.
pub mod Variables
pub mod Blocks
pub mod Interpreter
pub mod Motor2
pub mod Interpolate
pub mod World
