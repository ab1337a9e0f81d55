-- ===== src/Tests.antt =====
-- Runs of the models at concrete inputs, and the theorems applied to such inputs.
mod CoverageReport
mod BuildConfig
mod BuildDriver
mod BuildEvents
mod BuildGraph
mod CodePlugin
mod DockerBuild
mod ImageCleanup
mod MountScan
mod ProjectBootstrap
mod RunContainer
mod SmallTools
