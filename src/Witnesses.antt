-- ===== src/Witnesses.antt =====
-- The theorems at concrete inputs.
mod Pipeline
mod Processors
mod Wallets
