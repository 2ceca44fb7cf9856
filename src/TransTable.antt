-- ===== src/TransTable.antt =====
-- trans_table.c, behind its laws: which host sits behind which node.
mod Defs
mod Buffer
mod Update
mod Room
unfoldable pub use Defs.*
unfoldable pub use Buffer.*
unfoldable pub use Update.*
pub use Room.*
