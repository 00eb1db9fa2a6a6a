-- ===== src/Config.antt =====
-- internal/config: environment files.
pub mod DotEnv
