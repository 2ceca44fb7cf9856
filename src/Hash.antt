-- ===== src/Hash.antt =====
-- hash.c and hash.h, behind their laws: the chained hash table, and what the children prove of it.
mod Defs
mod Chain
mod Table
mod Remove
mod Resize
mod Iterate
unfoldable pub use Defs.*
pub use Chain.*
unfoldable pub use Table.*
pub use Remove.*
pub use Resize.*
unfoldable pub use Iterate.*
