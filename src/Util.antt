-- ===== src/Util.antt =====
-- internal/util: IP replacement and validation.
pub mod IpReplacement
pub mod Validation
