-- ===== src/Options.antt =====
-- The command line: the options, the first part of `apply_init_args` in posix-specific.c, and the client mode,
-- its last.
mod Defs
mod Range
mod Client
mod Marks
mod Pieces
mod Broken
unfoldable pub use Defs.*
unfoldable pub use Range.*
unfoldable pub use Client.*
unfoldable pub use Marks.*
unfoldable pub use Pieces.*
unfoldable pub use Broken.*
