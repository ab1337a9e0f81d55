-- ===== src/Lib.antt =====
-- The Python tools of the encrypted zone SDK.
--
-- The repository has the SDK itself (`core`, `enforcer`), which is written in C++, Rust and
-- protocol buffers, and the tools around it, which are written in Python. This library models the
-- tools: the scripts of the devkit (`.devkit/scripts`), which find a project, mount what its links
-- need, build and clean up its docker images, watch its container and check its coverage, and the
-- plugin that generates code from protocol buffers (`tools/plugin`).
--
-- The parts, and the files that model them:
-- Base: what the models share. Texts are lists of code points (Base/Text), dictionaries are
--   association lists in the order of insertion (Base/Dict), integers are Base/Int, with `int` and
--   `str` in Base/Decimal, and a call that may raise is a Base/Result.
-- FilePath: the part of `pathlib` that the scripts use, as a list of components.
-- FindRoot: `.devkit/scripts/find_project_root.py`.
-- Mounts: `.devkit/scripts/list_external_mounts.py`. Mounts has `_minimize_paths` and
--   `_process_symlink`, Mounts/Scan the scan, and Minimal, External and Scanned the proofs. The file
--   system is a record of functions. A set is a list. The chains of links and the worklist are on
--   fuel: one more than the longest chain, and one more than the paths that exist, are enough.
-- Build: `.devkit/scripts/docker/build.py`. Build/Config loads the configuration (Build/Json): it is
--   validated by Build/Schema and read by Build/Registry. Build/Graph orders the images, with
--   `graphlib` as a parameter; what `set.pop` returns is open, and is listed in the order of the
--   rounds. Build/Deps loads the images' configurations, Build/Tags calculates the tags of the
--   images, Build/Docker decides whether an image is there, pulled, or built and pushed, and
--   Build/Request and Build/Driver do so for the images of the build order. Build/Maker makes the
--   builder, and calculates all tags for the clean-up. Tags recurse over the
--   dependencies on a depth, where one more than the length of the longest chain of dependencies is
--   enough. Docker is a state and a function from a command to its exit status; the commands that
--   were run are a log.
-- Bootstrap: `.devkit/scripts/bootstrap.py`. Bootstrap copies the templates, Bootstrap/Main reads the
--   arguments and ends with the status. The file system is a state with operations that may raise, where
--   paths may name the same file,
--   and jinja2 a record of functions. What `os.walk` yields is a list.
-- Cleanup: `.devkit/scripts/docker_cleanup.py`. Cleanup/Pattern has the pattern of the images,
--   Cleanup the selection, Cleanup/Loop the batches, and Cleanup/Main the whole. The event is a function from how often it
--   was asked to its answer. The number of batches is bounded by the number of images. The selection
--   needs the tags of Build/Tags, and the prefix of Build/Registry.
-- Coverage: `.devkit/scripts/coverage_report.py`. Coverage/Lcov reads a report, Coverage/Group
--   groups the lines, and Coverage/Report prints the summary and checks the thresholds. Floats
--   are a parameter. Coverage/Main runs bazel and ends with the status.
-- RunPaths, DockerRun: `.devkit/scripts/docker_run.py`. RunPaths has the paths and what is to be
--   mounted, DockerRun the command, with the minimal mounts from Mounts, and how docker and the
--   threads end; DockerRun/Args evaluates the arguments, and DockerRun/Main reads the user, prepares
--   the home and composes these. What can be made or started is a parameter.
-- Bep: `.devkit/scripts/bep.py`, with a log of the directories it makes and the commands it runs.
-- Events: `.devkit/scripts/container_event_handler.py`, as a loop over what the sockets give, and in
--   Events/Threads as two threads whose steps come in any order, with a
--   client that may stay silent.
-- Plugin: `tools/plugin/ez_sdk.py`, with Jinja as a parameter.
-- Tests: the theorems at concrete inputs.
--
-- Not modelled: the argument parsers, the log files and the start of the threads of the scripts;
-- the arithmetic of floats, which is a parameter; and all that is not written in Python.
pub mod Base
pub mod Coverage
pub mod FilePath
pub mod FindRoot
pub mod Mounts
pub mod Bootstrap
pub mod Build
pub mod Cleanup
pub mod Plugin
pub mod Events
pub mod Bep
pub mod RunPaths
pub mod DockerRun
pub mod Tests
