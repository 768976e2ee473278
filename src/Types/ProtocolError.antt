-- ===== src/Types/ProtocolError.antt =====
-- helpers/types.ts: the error codes with which the contracts revert.
use lender.Common.{String}

-- `ProtocolErrors`
pub data ProtocolError : Type 0 where
  caller_not_pool_admin : ProtocolError
  caller_not_address_provider : ProtocolError
  invalid_from_balance_after_transfer : ProtocolError
  invalid_to_balance_after_transfer : ProtocolError
  caller_not_onbehalfof_or_in_whitelist : ProtocolError
  caller_not_risk_admin : ProtocolError
  caller_not_risk_or_pool_admin : ProtocolError
  math_multiplication_overflow : ProtocolError
  math_addition_overflow : ProtocolError
  math_division_by_zero : ProtocolError
  vl_invalid_amount : ProtocolError
  vl_no_active_reserve : ProtocolError
  vl_reserve_frozen : ProtocolError
  vl_not_enough_available_user_balance : ProtocolError
  vl_borrowing_not_enabled : ProtocolError
  vl_collateral_balance_is_0 : ProtocolError
  vl_health_factor_lower_than_liquidation_threshold : ProtocolError
  vl_collateral_cannot_cover_new_borrow : ProtocolError
  vl_no_debt_of_selected_type : ProtocolError
  vl_no_active_nft : ProtocolError
  vl_nft_frozen : ProtocolError
  vl_specified_currency_not_borrowed_by_user : ProtocolError
  vl_invalid_health_factor : ProtocolError
  vl_invalid_onbehalfof_address : ProtocolError
  vl_invalid_target_address : ProtocolError
  vl_invalid_reserve_address : ProtocolError
  vl_specified_loan_not_borrowed_by_user : ProtocolError
  vl_specified_reserve_not_borrowed_by_user : ProtocolError
  vl_price_stale : ProtocolError
  lp_caller_not_lend_pool_configurator : ProtocolError
  lp_is_paused : ProtocolError
  lp_no_more_reserves_allowed : ProtocolError
  lp_not_contract : ProtocolError
  lp_borrow_not_exceed_liquidation_threshold : ProtocolError
  lp_borrow_is_exceed_liquidation_price : ProtocolError
  lp_no_more_nfts_allowed : ProtocolError
  lp_invalied_user_nft_amount : ProtocolError
  lp_inconsistent_params : ProtocolError
  lp_nft_is_not_used_as_collateral : ProtocolError
  lp_caller_must_be_an_btoken : ProtocolError
  lp_invalied_nft_amount : ProtocolError
  lp_nft_has_used_as_collateral : ProtocolError
  lp_delegate_call_failed : ProtocolError
  lp_amount_less_than_extra_debt : ProtocolError
  lp_amount_less_than_redeem_threshold : ProtocolError
  lp_amount_greater_than_max_repay : ProtocolError
  lp_nft_token_id_exceed_max_limit : ProtocolError
  lp_nft_supply_num_exceed_max_limit : ProtocolError
  lp_caller_not_valid_interceptor : ProtocolError
  lp_caller_not_valid_locker : ProtocolError
  lpl_invalid_loan_state : ProtocolError
  lpl_invalid_loan_amount : ProtocolError
  lpl_invalid_taken_amount : ProtocolError
  lpl_amount_overflow : ProtocolError
  lpl_bid_price_less_than_liquidation_price : ProtocolError
  lpl_bid_price_less_than_highest_price : ProtocolError
  lpl_bid_redeem_duration_has_end : ProtocolError
  lpl_bid_user_not_same : ProtocolError
  lpl_bid_repay_amount_not_enough : ProtocolError
  lpl_bid_auction_duration_has_end : ProtocolError
  lpl_bid_auction_duration_not_end : ProtocolError
  lpl_bid_price_less_than_borrow : ProtocolError
  lpl_invalid_bidder_address : ProtocolError
  lpl_amount_less_than_bid_fine : ProtocolError
  lpl_bid_invalid_bid_fine : ProtocolError
  ct_caller_must_be_lend_pool : ProtocolError
  ct_invalid_mint_amount : ProtocolError
  ct_invalid_burn_amount : ProtocolError
  ct_borrow_allowance_not_enough : ProtocolError
  rl_reserve_already_initialized : ProtocolError
  rl_liquidity_index_overflow : ProtocolError
  rl_variable_borrow_index_overflow : ProtocolError
  rl_liquidity_rate_overflow : ProtocolError
  rl_variable_borrow_rate_overflow : ProtocolError
  lpc_reserve_liquidity_not_0 : ProtocolError
  lpc_invalid_configuration : ProtocolError
  lpc_caller_not_emergency_admin : ProtocolError
  lpc_invalied_bnft_address : ProtocolError
  lpc_invalied_loan_address : ProtocolError
  lpc_nft_liquidity_not_0 : ProtocolError
  rc_invalid_ltv : ProtocolError
  rc_invalid_liq_threshold : ProtocolError
  rc_invalid_liq_bonus : ProtocolError
  rc_invalid_decimals : ProtocolError
  rc_invalid_reserve_factor : ProtocolError
  rc_invalid_redeem_duration : ProtocolError
  rc_invalid_auction_duration : ProtocolError
  rc_invalid_redeem_fine : ProtocolError
  lpapr_provider_not_registered : ProtocolError
  lpapr_invalid_addresses_provider_id : ProtocolError
  invalid_owner_revert_msg : ProtocolError
  transfer_amount_exceeds_balance : ProtocolError
  safeerc20_lowlevel_call : ProtocolError

-- The text of each member of the enum.
abbrev pub error_text : ProtocolError → String
error_text caller_not_pool_admin = "100"
error_text caller_not_address_provider = "101"
error_text invalid_from_balance_after_transfer = "102"
error_text invalid_to_balance_after_transfer = "103"
error_text caller_not_onbehalfof_or_in_whitelist = "104"
error_text caller_not_risk_admin = "105"
error_text caller_not_risk_or_pool_admin = "106"
error_text math_multiplication_overflow = "200"
error_text math_addition_overflow = "201"
error_text math_division_by_zero = "202"
error_text vl_invalid_amount = "301"
error_text vl_no_active_reserve = "302"
error_text vl_reserve_frozen = "303"
error_text vl_not_enough_available_user_balance = "304"
error_text vl_borrowing_not_enabled = "305"
error_text vl_collateral_balance_is_0 = "306"
error_text vl_health_factor_lower_than_liquidation_threshold = "307"
error_text vl_collateral_cannot_cover_new_borrow = "308"
error_text vl_no_debt_of_selected_type = "309"
error_text vl_no_active_nft = "310"
error_text vl_nft_frozen = "311"
error_text vl_specified_currency_not_borrowed_by_user = "312"
error_text vl_invalid_health_factor = "313"
error_text vl_invalid_onbehalfof_address = "314"
error_text vl_invalid_target_address = "315"
error_text vl_invalid_reserve_address = "316"
error_text vl_specified_loan_not_borrowed_by_user = "317"
error_text vl_specified_reserve_not_borrowed_by_user = "318"
error_text vl_price_stale = "320"
error_text lp_caller_not_lend_pool_configurator = "400"
error_text lp_is_paused = "401"
error_text lp_no_more_reserves_allowed = "402"
error_text lp_not_contract = "403"
error_text lp_borrow_not_exceed_liquidation_threshold = "404"
error_text lp_borrow_is_exceed_liquidation_price = "405"
error_text lp_no_more_nfts_allowed = "406"
error_text lp_invalied_user_nft_amount = "407"
error_text lp_inconsistent_params = "408"
error_text lp_nft_is_not_used_as_collateral = "409"
error_text lp_caller_must_be_an_btoken = "410"
error_text lp_invalied_nft_amount = "411"
error_text lp_nft_has_used_as_collateral = "412"
error_text lp_delegate_call_failed = "413"
error_text lp_amount_less_than_extra_debt = "414"
error_text lp_amount_less_than_redeem_threshold = "415"
error_text lp_amount_greater_than_max_repay = "416"
error_text lp_nft_token_id_exceed_max_limit = "417"
error_text lp_nft_supply_num_exceed_max_limit = "418"
error_text lp_caller_not_valid_interceptor = "419"
error_text lp_caller_not_valid_locker = "420"
error_text lpl_invalid_loan_state = "480"
error_text lpl_invalid_loan_amount = "481"
error_text lpl_invalid_taken_amount = "482"
error_text lpl_amount_overflow = "483"
error_text lpl_bid_price_less_than_liquidation_price = "484"
error_text lpl_bid_price_less_than_highest_price = "485"
error_text lpl_bid_redeem_duration_has_end = "486"
error_text lpl_bid_user_not_same = "487"
error_text lpl_bid_repay_amount_not_enough = "488"
error_text lpl_bid_auction_duration_has_end = "489"
error_text lpl_bid_auction_duration_not_end = "490"
error_text lpl_bid_price_less_than_borrow = "491"
error_text lpl_invalid_bidder_address = "492"
error_text lpl_amount_less_than_bid_fine = "493"
error_text lpl_bid_invalid_bid_fine = "494"
error_text ct_caller_must_be_lend_pool = "500"
error_text ct_invalid_mint_amount = "501"
error_text ct_invalid_burn_amount = "502"
error_text ct_borrow_allowance_not_enough = "503"
error_text rl_reserve_already_initialized = "601"
error_text rl_liquidity_index_overflow = "602"
error_text rl_variable_borrow_index_overflow = "603"
error_text rl_liquidity_rate_overflow = "604"
error_text rl_variable_borrow_rate_overflow = "605"
error_text lpc_reserve_liquidity_not_0 = "700"
error_text lpc_invalid_configuration = "701"
error_text lpc_caller_not_emergency_admin = "702"
error_text lpc_invalied_bnft_address = "703"
error_text lpc_invalied_loan_address = "704"
error_text lpc_nft_liquidity_not_0 = "705"
error_text rc_invalid_ltv = "730"
error_text rc_invalid_liq_threshold = "731"
error_text rc_invalid_liq_bonus = "732"
error_text rc_invalid_decimals = "733"
error_text rc_invalid_reserve_factor = "734"
error_text rc_invalid_redeem_duration = "735"
error_text rc_invalid_auction_duration = "736"
error_text rc_invalid_redeem_fine = "737"
error_text lpapr_provider_not_registered = "760"
error_text lpapr_invalid_addresses_provider_id = "761"
error_text invalid_owner_revert_msg = "Ownable: caller is not the owner"
error_text transfer_amount_exceeds_balance = "ERC20: transfer amount exceeds balance"
error_text safeerc20_lowlevel_call = "SafeERC20: low-level call failed"
