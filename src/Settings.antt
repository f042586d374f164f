-- ===== src/Settings.antt =====
-- src/settings: the repository, the task that stores the gas fee, and the controller.
pub mod Repository
pub mod SyncGasFee
pub mod Controller
