-- ===== src/Hash/Iterate.antt =====
-- hash.c, `hash_iterate` and `hash_remove_bucket`, with the loops that use them.
mod Defs
mod Buckets
mod Step
mod Place
mod Walk
unfoldable pub use Defs.*
unfoldable pub use Buckets.*
unfoldable pub use Place.*
pub use Walk.*
