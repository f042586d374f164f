-- ===== src/Wallets/Jobs.antt =====
-- src/wallets/constants.ts, and the options that src/wallets gives to its jobs.
use eth_ton_swap.Common.{ℕ, Option}
use eth_ton_swap.World.{WalletJob, WalletJobData, exponential}
use eth_ton_swap.Ton.Blockchain.{ton_block_tracking_interval}

abbrev pub deploy_wallet_attempts : ℕ
deploy_wallet_attempts = 6

-- a job that is tried six times, after pauses that grow
abbrev pub wallet_job : WalletJobData → Option ℕ → WalletJob
wallet_job payload delay = record {
  payload = payload;
  attempts = deploy_wallet_attempts;
  delay = delay;
  backoff = exponential ton_block_tracking_interval;
}
