-- ===== src/Application.antt =====
-- internal/application/app.go with the adapters that `internal/di/wire.go` makes for it: leader
-- election, certificates, the configuration loader and the metrics.
pub mod Election
pub mod Logging
pub mod System
pub mod Certificates
pub mod Loader
pub mod Container
pub mod Metrics
pub mod Main
