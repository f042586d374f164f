-- ===== src/Tokens.antt =====
-- src/tokens: the repository, the exchange rates and the task that stores prices.
pub mod Dto
pub mod Pipes
pub mod Controller
pub mod Repository
pub mod ExchangeRates
pub mod SyncTokensPrice
