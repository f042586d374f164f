-- ===== src/Wallets.antt =====
-- src/wallets: the repository, the processor with its queue, the controller and the tasks.
pub mod Mnemonic
pub mod Repository
pub mod Jobs
pub mod Pipes
pub mod Controller
pub mod Processor
pub mod Queue
pub mod DepositBalance
pub mod SyncTokenBalance
