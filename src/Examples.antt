-- ===== src/Examples.antt =====
-- Runs of the functions of src/diffmonger.hpp, src/RepositoryStructure.cpp and src/Controller.cpp on
-- concrete inputs, and the theorems at such inputs.
pub mod Trees
pub mod Files
pub mod Runs
pub mod Keys
pub mod Snapshots
pub mod Restores
pub mod Takes
pub mod Transfers
pub mod Secrets
pub mod Arguments
pub mod Drivers
