-- ===== src/Tests/Assets.antt =====
-- The asset book on a state with one issued asset.
use des_ka_project.Prelude.{◌≤◌, ◌≡◌, refl, true, false, codes, str_discrete, arith, is_ok}
use des_ka_project.Arith.{add, sub, max_u64}
use des_ka_project.Config.{native_asset_id}
use des_ka_project.Asset.State.{
  Request, balance, mint, burn, transfer, charge_fee, execute_token_transfer,
  create_from_transaction_id, definition, add_balance, subtract_balance, ensure_account,
}
use des_ka_project.Asset.Balances.{circulating}
use des_ka_project.Asset.Supply.{
  IsBacked, recorded_supply, mint-IsBacked, burn-IsBacked, create_from_transaction_id-IsBacked,
}
use des_ka_project.Asset.Atomic.{
  IsBounded, transfer-balance, transfer-is_ok, execute_token_transfer_failed,
}
use des_ka_project.Tests.Data.{alice, bob, gold, gold_state}

gold-IsBacked : IsBacked gold gold_state
unfolding circulating recorded_supply str_discrete
gold-IsBacked = refl

mint-IsBacked_example : IsBacked gold (mint gold alice bob 930 gold_state).1
mint-IsBacked_example = mint-IsBacked gold gold alice bob 930 gold_state gold-IsBacked

burn-IsBacked_example : IsBacked gold (burn gold alice 15 gold_state).1
burn-IsBacked_example = burn-IsBacked gold gold alice 15 gold_state gold-IsBacked

abbrev silver : Request
silver = record {
  name = codes "Silver";
  symbol = codes "SLV";
  decimals = 2;
  max_supply = 100;
  mintable = true;
  burnable = true;
  pausable = false;
  permissioned = false;
}

create_from_transaction_id-IsBacked_example :
    IsBacked gold (create_from_transaction_id (codes "T2") silver bob gold_state).1
create_from_transaction_id-IsBacked_example =
    create_from_transaction_id-IsBacked gold (codes "T2") silver bob gold_state gold-IsBacked

gold_of_alice : balance alice gold gold_state ≤ max_u64
unfolding balance str_discrete
gold_of_alice = omega arith

gold_of_bob : balance bob gold gold_state ≤ max_u64
unfolding balance str_discrete
gold_of_bob = omega arith

native_of_alice : balance alice native_asset_id gold_state ≤ max_u64
unfolding balance str_discrete
native_of_alice = omega arith

transfer-balance_example : balance bob gold (transfer gold alice bob 30 gold_state).1 ≡ 50
unfolding transfer balance str_discrete definition add_balance subtract_balance ensure_account add
    sub
transfer-balance_example = transfer-balance gold alice bob 30 gold_state bob gold gold_of_alice

transfer-is_ok_example : is_ok (transfer gold alice bob 51 gold_state).0 ≡ false
unfolding balance str_discrete definition
transfer-is_ok_example = transfer-is_ok gold alice bob 51 gold_state gold_of_bob

fee_fails : is_ok (charge_fee alice 6 gold_state).0 ≡ false
unfolding charge_fee str_discrete add_balance subtract_balance ensure_account add sub
fee_fails = refl

gold_state-IsBounded : IsBounded gold_state
unfolding balance
gold_state-IsBounded a i = ground arith

token_transfer_fails : is_ok (execute_token_transfer gold alice bob bob 30 1 gold_state).0 ≡ false
unfolding execute_token_transfer transfer charge_fee str_discrete add_balance subtract_balance
    ensure_account add sub
token_transfer_fails = refl

execute_token_transfer_failed_example :
    balance alice gold (execute_token_transfer gold alice bob bob 30 1 gold_state).1
    ≡ balance alice gold gold_state
execute_token_transfer_failed_example =
    execute_token_transfer_failed gold alice bob bob 30 1 gold_state alice gold gold_state-IsBounded
      token_transfer_fails
