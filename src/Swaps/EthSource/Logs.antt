-- ===== src/Swaps/EthSource/Logs.antt =====
-- What a log says that findTransferLog accepts: src/ethereum/providers/ethereum-contract.service.ts.
use Prim.Native.String.{◌++◌}
use text.Mathlib.TextEquality.{eq_iff}
use mathlib.Core.Option.{some_inj}
use eth_ton_swap.Common.{
  ℕ, String, str_eq, none, some, List, [], ◌∷◌, Result-cases, ok, ok_inj, ◌≡◌, sym, ◌∙◌, ap,
  Bool-cases, inl, inr, strip_hex_prefix, arith,
}
use eth_ton_swap.Env.{Env, Log, LogArgument, address, amount}
use eth_ton_swap.Ethereum.{TransferLog, transfer_of, find_transfer_log}

module _ {Num Slice : Type 0} (e : Env Num Slice) where
  -- The log is an event of three arguments, the second is the wallet, and the transfer has the
  -- log's transaction, the first argument for its sender and the third for its amount.
  pub record Describes (log : Log) (wallet : String) (decimals : ℕ) (transfer : TransferLog Num)
      : Type 0 where
    pub from : String
    pub units : ℕ
    pub parsed :
        e.eth.parse_log log
        ≡ ok (some (address from ∷ address ("0x" ++ wallet) ∷ amount units ∷ []))
    pub transaction_id : transfer.transaction_id ≡ strip_hex_prefix log.transaction_hash
    pub sender : transfer.source_address ≡ from
    pub transferred : transfer.amount ≡ e.big.parse (e.eth.format_units units decimals)

  transfer_of-Describes :
      (log : Log) (wallet : String) (decimals : ℕ) (transfer : TransferLog Num)
      (args : List LogArgument)
      → e.eth.parse_log log ≡ ok (some args)
      → transfer_of e log wallet decimals args ≡ some transfer
      → Describes log wallet decimals transfer
  transfer_of-Describes log wallet decimals transfer (address from ∷ address to ∷ amount n ∷ [])
        parsed h =
      elim (Bool-cases (str_eq to ("0x" ++ wallet))) [
        | inl same ↦
            let made = some_inj.0 (rw same at h) in
            record {
              from = from;
              units = n;
              parsed =
                  parsed
                  ∙ ap (λ t. ok (some (address from ∷ address t ∷ amount n ∷ [])))
                      ((eq_iff to ("0x" ++ wallet)).0 same);
              transaction_id = sym (ap (λ (t : TransferLog Num). t.transaction_id) made);
              sender = sym (ap (λ (t : TransferLog Num). t.source_address) made);
              transferred = sym (ap (λ (t : TransferLog Num). t.amount) made);
            }
        | inr other ↦ (let bad = rw other at h in ground (arith, bad))
      ]
  transfer_of-Describes log wallet decimals transfer [] parsed h = ground (arith, h)
  transfer_of-Describes log wallet decimals transfer (amount a ∷ rest) parsed h = ground (arith, h)
  transfer_of-Describes log wallet decimals transfer (address a ∷ []) parsed h = ground (arith, h)
  transfer_of-Describes log wallet decimals transfer (address a ∷ amount b ∷ rest) parsed h =
      ground (arith, h)
  transfer_of-Describes log wallet decimals transfer (address a ∷ address b ∷ []) parsed h =
      ground (arith, h)
  transfer_of-Describes log wallet decimals transfer (address a ∷ address b ∷ address c ∷ rest)
        parsed h =
      ground (arith, h)
  transfer_of-Describes log wallet decimals transfer (address a ∷ address b ∷ amount c ∷ d ∷ rest)
        parsed h =
      ground (arith, h)

  pub find_transfer_log-Describes :
      (log : Log) (wallet : String) (decimals : ℕ) (transfer : TransferLog Num)
      → find_transfer_log e log wallet decimals ≡ ok (some transfer)
      → Describes log wallet decimals transfer
  unfolding find_transfer_log
  find_transfer_log-Describes log wallet decimals transfer h =
      elim (Result-cases (e.eth.parse_log log)) [
        | inr (m, p) ↦ (let bad = rw p at h in ground (arith, bad))
        | inl (none, p) ↦ (let bad = rw p at h in ground (arith, bad))
        | inl (some args, p) ↦
            transfer_of-Describes log wallet decimals transfer args p (ok_inj (rw p at h))
      ]
