-- ===== src/Kubernetes.antt =====
-- The Kubernetes client: internal/adapters/kubernetes/client.go.
pub mod Objects
pub mod Watch
pub mod Cache
