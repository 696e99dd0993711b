-- ===== src/Controller.antt =====
-- internal/controller: the reconciliation engine.
pub mod Env
pub mod Merge
pub mod Build
pub mod Fallback
pub mod Sync
pub mod Handler
pub mod Reconcile
pub mod Events
pub mod Agreement
pub mod System
pub mod Tickers
