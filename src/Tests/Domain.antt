-- ===== src/Tests/Domain.antt =====
-- `ApplyDefaultValues` on a configuration.
