-- ===== src/Address.antt =====
-- originator.c, `compare_orig` and `choose_orig`: the callbacks of both hash tables, and their laws.
mod Defs
mod Laws
unfoldable pub use Defs.*
pub use Laws.*
