-- ===== src/Swaps/Jobs.antt =====
-- The payloads of the confirmation jobs (src/swaps/dto), and the options that the processors of
-- src/swaps/processors give to their jobs.
use eth_ton_swap.Common.{ℕ, ◌+◌, String, false, Option, none, some, if◌then◌else◌, ends_with}
use eth_ton_swap.Common.Errors.{queue_high_priority, queue_low_priority, attempt_count_ultimate}
use eth_ton_swap.World.{JobOptions, fixed, exponential}

-- `ConfirmTransferDto` and `WaitForTransferConfirmationDto`
pub record ConfirmTransfer : Type 0 where
  pub swap_id : ℕ
  pub block_number : ℕ

pub record WaitForTransferConfirmation : Type 0 where
  pub swap_id : ℕ
  pub transaction_id : Option String
  pub confirmations : ℕ

-- the options of a job that is tried again after a pause
abbrev pub retried : ℕ → ℕ → JobOptions
retried attempts interval = record {
  attempts = some attempts;
  delay = some interval;
  priority = queue_high_priority;
  lifo = false;
  backoff = some (fixed interval);
}

-- `{ delay, priority }`: a job that is tried once
abbrev pub delayed : ℕ → JobOptions
delayed interval = record {
  attempts = none;
  delay = some interval;
  priority = queue_high_priority;
  lifo = false;
  backoff = none;
}

-- the block to look at when a job that threw is added again
abbrev pub next_block : ConfirmTransfer → String → ℕ
next_block d message =
    if ends_with message "transaction not found" then d.block_number + 1 else d.block_number

-- tried again after a pause, the first time at once
abbrev pub at_once : ℕ → ℕ → JobOptions
at_once attempts interval = record {
  attempts = some attempts;
  delay = none;
  priority = queue_high_priority;
  lifo = false;
  backoff = some (fixed interval);
}

-- the jobs after a payout: low priority, and pauses that grow
abbrev pub settling : Option ℕ → ℕ → JobOptions
settling delay interval = record {
  attempts = some attempt_count_ultimate;
  delay = delay;
  priority = queue_low_priority;
  lifo = false;
  backoff = some (exponential interval);
}

-- `${x}` in a template
abbrev pub template_text : Option String → String
template_text none = "undefined"
template_text (some text) = text
