-- ===== src/GitHub.antt =====
-- internal/github: what the controller knows of GitHub.
pub mod RunnerRelease
pub mod ScaleSets
pub mod Runners
pub mod Listen
