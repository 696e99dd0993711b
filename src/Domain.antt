-- ===== src/Domain.antt =====
-- internal/domain: the model of services, pods, nodes and upstreams, and the configuration.
pub mod Model
pub mod Config
pub mod Defaults
