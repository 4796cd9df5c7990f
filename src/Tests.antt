-- ===== src/Tests.antt =====
-- Runs of the models on concrete inputs.
pub mod Sample
mod Wire
mod Commands
mod Sessions
mod Scans
mod Registry
mod Lock
mod Keys
pub mod Link
pub mod Owners
mod Control
mod Setup
mod Installations
mod Cli
