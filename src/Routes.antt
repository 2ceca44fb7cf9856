-- ===== src/Routes.antt =====
-- batman-adv.c, `update_routes` and `update_gw_list`, behind their laws.
mod Defs
mod Hna
mod Gateways
unfoldable pub use Defs.*
pub use Hna.*
pub use Gateways.*
