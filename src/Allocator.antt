-- ===== src/Allocator.antt =====
-- allocate.c, built with DEBUG_MALLOC, as the Makefile does, and with MEMORY_USAGE.
mod Defs
mod Usage
mod Sound
mod Integrity
mod Malloc
mod Free
mod Realloc
unfoldable pub use Defs.*
unfoldable pub use Usage.*
unfoldable pub use Sound.*
pub use Integrity.*
pub use Malloc.*
pub use Free.*
pub use Realloc.*
