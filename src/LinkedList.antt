-- ===== src/LinkedList.antt =====
-- dlist.h and list-batman.c: intrusive lists on the heap.
mod Defs
mod Segment
mod Ring
mod Extend
mod Unlink
mod Queue
mod Unqueue
unfoldable pub use Defs.*
unfoldable pub use Segment.*
unfoldable pub use Ring.*
unfoldable pub use Extend.*
pub use Unlink.*
unfoldable pub use Queue.*
pub use Unqueue.*
