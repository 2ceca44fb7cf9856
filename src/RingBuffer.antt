-- ===== src/RingBuffer.antt =====
-- ring_buffer.c: the last TQ_GLOBAL_WINDOW_SIZE link qualities of a neighbour, and their average.
-- `lq_recv` and `*lq_index` are passed and returned; an access out of the array is a fault.
mod Defs
mod Average
unfoldable pub use Defs.*
mod Window
pub use Average.*
pub use Window.*
