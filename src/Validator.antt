-- ===== src/Validator.antt =====
-- internal/adapters/validator: the checks of the configuration.
pub mod LoadBalancer
pub mod IpReplacement
pub mod Settings
pub mod Adapters
pub mod Composite
