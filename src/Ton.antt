-- ===== src/Ton.antt =====
-- src/ton/providers: the blockchain service, and the requests of the contract service.
pub mod Blockchain
pub mod Contract
pub mod DryRuns
pub mod Minters
pub mod Pipes
pub mod Wallets
