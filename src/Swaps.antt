-- ===== src/Swaps.antt =====
-- src/swaps: the repository, the helper, the processors of the four queues, and the controller.
pub mod Repository
pub mod Helper
pub mod Jobs
pub mod Stage
pub mod Results
pub mod EthSource
pub mod Crediting
pub mod TonDestination
pub mod TonSource
pub mod EthDestination
pub mod Controller
pub mod Pipeline
pub mod Views
