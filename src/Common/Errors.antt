-- ===== src/Common/Errors.antt =====
-- src/common/constants.ts: queue priorities, attempt counts, error messages and their status codes.
pub mod Codes
use eth_ton_swap.Common.{
  ℕ, ◌*◌, ◌/◌, String, Option, none, some, List, [], ◌∷◌, str_eq, if◌then◌else◌,
}

abbrev pub queue_high_priority : ℕ
queue_high_priority = 1

abbrev pub queue_low_priority : ℕ
queue_low_priority = 3

abbrev pub attempt_count_normal : ℕ
attempt_count_normal = 20 * 60 / 4

abbrev pub attempt_count_extended : ℕ
attempt_count_extended = 3 * attempt_count_normal

abbrev pub attempt_count_ultimate : ℕ
attempt_count_ultimate = 12 * attempt_count_normal

abbrev pub error_no_error : String
error_no_error = "No error"

abbrev pub error_swap_expired : String
error_swap_expired = "Swap expired"

abbrev pub error_swap_not_recaculated_zero_amount : String
error_swap_not_recaculated_zero_amount = "Swap not recalculated: Zero amount"

abbrev pub error_swap_not_recaculated_too_low : String
error_swap_not_recaculated_too_low = "Swap not recalculated: Amount too low"

abbrev pub error_swap_not_recaculated_too_high : String
error_swap_not_recaculated_too_high = "Swap not recalculated: Amount too high"

abbrev pub error_swap_not_recaculated_zero_fee : String
error_swap_not_recaculated_zero_fee = "Swap not recalculated: Zero fee"

abbrev pub error_jetton_minter_admin_wallet_not_found : String
error_jetton_minter_admin_wallet_not_found = "Jetton minter admin wallet not found"

abbrev pub error_swap_not_found : String
error_swap_not_found = "Swap not found"

abbrev pub error_token_not_found : String
error_token_not_found = "Token not found"

abbrev pub error_invalid_address : String
error_invalid_address = "Invalid address"

abbrev pub error_swap_amount_too_low : String
error_swap_amount_too_low = "Swap amount too low"

abbrev pub error_swap_amount_too_high : String
error_swap_amount_too_high = "Swap amount too high"

abbrev pub error_too_many_requests : String
error_too_many_requests = "Too many requests"

abbrev pub error_source_walllet_not_available : String
error_source_walllet_not_available = "Source wallet not available"

abbrev pub error_destination_walllet_not_available : String
error_destination_walllet_not_available = "Destination wallet not available"

abbrev pub error_collector_walllet_not_available : String
error_collector_walllet_not_available = "Collector wallet not available"

abbrev pub error_blockchain_connection_lost : String
error_blockchain_connection_lost = "Blockchain connection lost"

abbrev pub error_blockchain_not_supported : String
error_blockchain_not_supported = "Blockchain not supported"

abbrev pub error_swap_already_completed : String
error_swap_already_completed = "Swap already completed"

abbrev pub error_swap_in_progress : String
error_swap_in_progress = "Swap in progress"

abbrev pub error_token_already_exists : String
error_token_already_exists = "Token already exists"

abbrev pub error_wallet_not_found : String
error_wallet_not_found = "Wallet not found"

abbrev pub error_wallet_already_exists : String
error_wallet_already_exists = "Wallet already exists"

abbrev pub error_invalid_mnemonic : String
error_invalid_mnemonic = "Invalid mnemonic"

abbrev pub error_setting_not_found : String
error_setting_not_found = "Setting not found"

abbrev pub error_setting_already_exists : String
error_setting_already_exists = "Setting already exists"

abbrev pub error_unacceptable_wallet_type : String
error_unacceptable_wallet_type = "Unacceptable wallet type"

abbrev pub error_user_unauthorized : String
error_user_unauthorized = "User unauthorized"

abbrev pub error_invalid_parameter : String
error_invalid_parameter = "Invalid parameter"

abbrev pub error_to_status_code : List (String × ℕ)
error_to_status_code =
    (error_no_error, 0)
    ∷ (error_swap_expired, 1)
    ∷ (error_swap_not_recaculated_zero_amount, 2)
    ∷ (error_swap_not_recaculated_too_low, 3)
    ∷ (error_swap_not_recaculated_too_high, 4)
    ∷ (error_swap_not_recaculated_zero_fee, 5)
    ∷ (error_jetton_minter_admin_wallet_not_found, 6)
    ∷ (error_swap_not_found, 1000)
    ∷ (error_token_not_found, 1001)
    ∷ (error_invalid_address, 1002)
    ∷ (error_swap_amount_too_low, 1003)
    ∷ (error_swap_amount_too_high, 1004)
    ∷ (error_too_many_requests, 1005)
    ∷ (error_source_walllet_not_available, 1006)
    ∷ (error_destination_walllet_not_available, 1007)
    ∷ (error_collector_walllet_not_available, 1008)
    ∷ (error_blockchain_connection_lost, 1009)
    ∷ (error_blockchain_not_supported, 1010)
    ∷ (error_swap_already_completed, 1011)
    ∷ (error_swap_in_progress, 1012)
    ∷ (error_token_already_exists, 1013)
    ∷ (error_wallet_not_found, 1014)
    ∷ (error_wallet_already_exists, 1015)
    ∷ (error_invalid_mnemonic, 1016)
    ∷ (error_setting_not_found, 1017)
    ∷ (error_setting_already_exists, 1018)
    ∷ (error_unacceptable_wallet_type, 1019)
    ∷ (error_user_unauthorized, 1020)
    ∷ (error_invalid_parameter, 1021)
    ∷ []

-- A property of an object, `undefined` (here `none`) where the object has none of that name.
abbrev pub property : String → List (String × ℕ) → Option ℕ
property name [] = none
property name ((key, value) ∷ rest) = if str_eq key name then some value else property name rest

unfoldable pub get_status_code : String → Option ℕ
get_status_code error_message = property error_message error_to_status_code
