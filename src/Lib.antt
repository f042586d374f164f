-- ===== src/Lib.antt =====
-- The swap service between Ethereum and TON: a customer orders a swap, transfers the source
-- tokens to a wallet of the service, and the service pays out the destination tokens, less a fee.
--
-- An order (swaps/controllers/swaps.controller.ts) stores a pending swap, leases a free wallet,
-- and queues a first job. Four Bull queues, one processor each, then carry the swap on: a job
-- reads the swap, calls a blockchain, updates the swap and its wallet, and its listener
-- `completed` queues the next job. From Ethereum to TON the jobs are the transfer's confirmation,
-- its second to fifth confirmation, minting, finding the minting, and the fee; from TON to
-- Ethereum they are the transfer's confirmation, the payout, the fee, finding it, burning the
-- jettons, and finding that.
--
-- The wallets that the swaps lease are created, attached, changed and detached by an
-- administrator (wallets/controllers/wallets.controller.ts). A new wallet in TON is deployed by a
-- fifth queue (wallets/processors/wallets.processor.ts): a giver pays its first toncoins, the
-- payment is looked for, the wallet is deployed, and the deployment is looked for. Hourly tasks
-- fill up the wallets that pay for transfers from the givers, and store the balances of tokens
-- and the gas fee; a daily one stores prices.
--
-- Files, with the code that each follows (paths below src of the repository):
-- - Common, with Common/Errors (common/constants.ts), Common/Number
--   (common/providers/quantity.ts), Common/Monad (a method that changes a state and may throw:
--   `Action`, where what was written before a throw stays written), and Common/Lists,
--   Common/Tests, Common/Fallible: shared names and lemmas.
-- - Entities: swaps/swap.entity.ts, wallets/wallet.entity.ts, tokens/token.entity.ts,
--   swaps/constants.ts.
-- - Database: TypeORM's repositories as a record of operations, `Orm`, with `OrmLaws`, which
--   state what a lookup finds after an update or a save. A failing update is not modelled: of the
--   code here, only the task that stores prices handles one.
-- - World: what the jobs share, as a record: the database, the queued jobs of swaps and of
--   wallets, the events that were emitted, the requests that were sent to a blockchain, the
--   cache's entries. World/Keeps: rules for what an action leaves alone.
-- - Env: the answers that one run gets from outside (time, configuration, ethers, tonweb, node's
--   crypto, the cache).
-- - Ethereum: ethereum/providers and swaps/providers/ethereum-cache.helper.ts; Ethereum/Wallets:
--   ethereum/controllers, ethereum/pipes and ethereum/dto.
-- - Ton/Blockchain and Ton/Contract: ton/providers; Ton/Blockchain/Search: the search for a
--   transaction. Ton/Wallets, Ton/Minters and Ton/Pipes: ton/controllers, ton/pipes and ton/dto;
--   Ton/DryRuns: the endpoints that send, as one request type.
-- - Wallets/Repository: wallets/providers/wallets.repository.ts, and wallets/interfaces in its
--   child Interfaces. Wallets/Mnemonic: the texts of mnemonics. Wallets/Pipes: wallets/pipes and
--   wallets/dto. Wallets/Controller: wallets/controllers/wallets.controller.ts, with the children
--   Creating, Attaching, Mnemonics, Updating and Storing; Drafting and Looking hold the columns
--   of a wallet of a random key, and what attaching looks up and normalizes.
-- - Wallets/Processor and Wallets/Jobs: wallets/processors/wallets.processor.ts and
--   wallets/constants.ts. Wallets/Queue: a run of a job with its listener and Bull's attempts;
--   its children Progress, Termination, Deployment and Refinement hold what a run queues, the
--   bound of all runs, the rows, and the abstract deployment.
-- - Wallets/DepositBalance and Wallets/SyncTokenBalance: wallets/tasks, with the children Giving,
--   Balances (the loop) and Rows (what a row becomes).
-- - Settings: settings/providers, settings/tasks and settings/controllers. Stats:
--   stats/controllers.
-- - Swaps/Repository: swaps/providers/swaps.repository.ts. Swaps/Helper:
--   swaps/providers/swaps.helper.ts.
-- - Swaps/EthSource, Swaps/EthDestination, Swaps/TonSource, Swaps/TonDestination:
--   swaps/processors, a function for each processor and listener. Swaps/Jobs: the payloads and
--   the jobs' options.
-- - Swaps/Controller: createSwap and cancelSwap of swaps/controllers/swaps.controller.ts.
--   Swaps/Views: what is shown of a swap, and the events of common/providers/events.service.ts.
-- - Swaps/Stage and Swaps/Results: the stage of a swap (status and confirmations), what a run may
--   do to it, and the rules by which each processor is read. The child Outcome of a processor,
--   and Swaps/TonSource/Settling, apply them.
-- - Swaps/Crediting, and the child Credit of the two source processors: what a transfer that is
--   confirmed writes to its swap and to its wallet; Swaps/EthSource/Logs: what a log of it says.
--   Swaps/EthSource/Waiting, Swaps/EthDestination/Paying, Swaps/TonDestination/Minting and
--   Swaps/TonDestination/Delivering: under which condition a run ends how, and what it sends and
--   stores then.
-- - Swaps/Pipeline: the queues and the two endpoints as one step relation, `Step`, and its
--   closure, `Reach`; its children hold the invariants, and Swaps/Pipeline/Racing two orders that
--   interleave.
-- - Tokens/Repository, Tokens/ExchangeRates, Tokens/SyncTokensPrice, Tokens/Controller,
--   Tokens/Pipes, Tokens/Dto: tokens, over a table of tokens of their own, `TokenOrm` with
--   `TokenLaws`.
-- - Samples: a database that meets the laws, a chain and rows; Witnesses: the theorems at these.
--
-- Bounds and fuel: nothing runs on fuel. The loops over logs and transactions are structural; a
-- chain of jobs is a sequence of steps, and for the wallets its length is bounded. Numbers of
-- bignumber.js are a parameter, `BigNumber`, and so are the numbers of the blockchains, which
-- cross as texts.
--
-- Not modelled: runs that interleave within a handler, but for two orders (a step is one whole
-- handler); Bull's delays, priorities and backoff, which only order the steps (a job that throws
-- is dropped, or put back if it was given attempts); the logger and tracing; the pauses of the
-- tasks; the endpoints that start a task; the times of the last change, which the database alone
-- writes; authentication; configuration. The order of a sort by balances where a balance is no
-- number is one that ECMAScript allows.
pub mod Common
pub mod Entities
pub mod Database
pub mod World
pub mod Env
pub mod Ethereum
pub mod Ton
pub mod Wallets
pub mod Swaps
pub mod Tokens
pub mod Settings
pub mod Stats
pub mod Samples
pub mod Witnesses
