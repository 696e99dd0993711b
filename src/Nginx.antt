-- ===== src/Nginx.antt =====
-- The NGINX adapter: internal/adapters/loadbalancer/nginx.
pub mod Address
pub mod Parse
pub mod Plan
pub mod Sync
pub mod Paths
pub mod Client
pub mod ClientSet
pub mod SyncAll
pub mod Wire
