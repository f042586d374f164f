-- ===== src/Swaps/Results.antt =====
-- What each kind of run may return, and how the result moves the stage of the swap.
use eth_ton_swap.Common.{
  arith, ℕ, Bool, true, false, Option, none, some, ◌≡◌, ◌≢◌, ◌⊎◌, if◌then◌else◌,
}
use eth_ton_swap.Entities.{SwapStatus, is_canceled}
use eth_ton_swap.World.{SwapResult}
use eth_ton_swap.Swaps.Stage.{Stage, with_status}

abbrev pub is_confirmed : SwapStatus → Bool
is_confirmed SwapStatus.confirmed = true
is_confirmed _ = false

-- Runs that look for the transfer of the source tokens: a swap that is found in time counts one
-- confirmation.
abbrev pub after_confirmation : ℕ → SwapResult → Stage → Stage
after_confirmation count r g =
    if is_confirmed r.status
    then record { status = r.status; confirmations = count }
    else with_status r.status g

-- A run that mints: the stage moves only if it fails.
abbrev pub after_mint : SwapResult → Stage → Stage
after_mint r g = if is_confirmed r.status then g else with_status r.status g

-- Runs that finish a payout.
abbrev pub after_payout : SwapResult → Stage → Stage
after_payout r g = with_status r.status g

-- Runs that settle fees and burn jettons.
abbrev pub after_settling : Unit {0} → Stage → Stage
after_settling r g = g

-- A swap that was cancelled stays so; any other expires, fails or is confirmed.
abbrev pub ConfirmAllowed : Option Stage → SwapResult → Type 0
ConfirmAllowed none r = r.status ≡ SwapStatus.failed
ConfirmAllowed (some g) r =
    ((g.status ≡ SwapStatus.canceled) × (r.status ≡ SwapStatus.canceled))
    ⊎ ((g.status ≢ SwapStatus.canceled)
        × ((r.status ≡ SwapStatus.expired)
            ⊎ (r.status ≡ SwapStatus.failed)
            ⊎ (r.status ≡ SwapStatus.confirmed)))

abbrev pub WaitAllowed : Option Stage → SwapResult → Type 0
WaitAllowed none r = r.status ≡ SwapStatus.failed
WaitAllowed (some g) r = (r.status ≡ SwapStatus.expired) ⊎ (r.status ≡ SwapStatus.confirmed)

abbrev pub MintAllowed : Option Stage → SwapResult → Type 0
MintAllowed none r = r.status ≡ SwapStatus.failed
MintAllowed (some g) r =
    (r.status ≡ SwapStatus.expired)
    ⊎ (r.status ≡ SwapStatus.failed)
    ⊎ (r.status ≡ SwapStatus.confirmed)

abbrev pub PayoutAllowed : Option Stage → SwapResult → Type 0
PayoutAllowed none r = r.status ≡ SwapStatus.failed
PayoutAllowed (some g) r =
    (r.status ≡ SwapStatus.expired)
    ⊎ (r.status ≡ SwapStatus.failed)
    ⊎ (r.status ≡ SwapStatus.completed)

abbrev pub AnyAllowed : Option Stage → Unit {0} → Type 0
AnyAllowed g r = Unit {0}

pub is_canceled_eq : (s : SwapStatus) → is_canceled s ≡ true → s ≡ SwapStatus.canceled
is_canceled_eq s h = ground arith

pub is_canceled_ne : (s : SwapStatus) → is_canceled s ≡ false → s ≢ SwapStatus.canceled
is_canceled_ne s h = ground arith
