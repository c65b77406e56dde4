-- ===== src/Tests.antt =====
-- Concrete runs of the model, and the theorems at concrete inputs.
pub mod Instances
pub mod Traces
pub mod Deployments
pub mod Projects
pub mod CommandLine
pub mod Replays
pub mod Builds
pub mod Keys
pub mod Bindings
