-- ===== src/Build.antt =====
-- .devkit/scripts/docker/build.py
pub mod Json
pub mod Registry
pub mod Schema
pub mod Config
pub mod Tags
pub mod Graph
pub mod Deps
pub mod Docker
pub mod Request
pub mod Driver
pub mod Maker
