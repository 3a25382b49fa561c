-- ===== src/Prelude/Text.antt =====
-- Go strings as lists of bytes, and the functions of `strings` that the code calls.
mod Defs
pub mod Paths
unfoldable pub use Defs.*
