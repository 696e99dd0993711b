-- ===== src/Tests.antt =====
-- Theorems at concrete inputs, and runs of the definitions.
pub mod Fixture
pub mod Domain
pub mod Merge
pub mod Controller
pub mod Reconcile
pub mod System
pub mod Events
pub mod Agreement
pub mod Kubernetes
pub mod Nginx
pub mod Served
pub mod Util
pub mod Validation
pub mod Validator
pub mod Client
pub mod Application
