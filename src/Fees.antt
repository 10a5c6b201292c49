-- ===== src/Fees.antt =====
-- deskachain/node/internal/fees/policy.go: gas, the minimum fee and its check.
pub mod Minimum
use des_ka_project.Prelude.{
  ℕ, ◌+◌, ◌-◌, ◌*◌, ◌/◌, ◌%◌, ◌≤◌, ◌<◌, ◌≡◌, refl, Bool, true, false, not, ◌&&◌, ◌||◌, [], Str,
  ◌=s◌, ltb, leb, ◌==◌, if◌then◌else◌, arith, length, Error, msg, wrap, Result, ok, err, ⊤, check,
  ◌then_check◌, wrap_err,
}
use des_ka_project.Prelude.Results.{◌>>=◌}
use des_ka_project.Arith.{max_u64}
use des_ka_project.Config.{NetworkConfig, FeeParams, native_asset_id}
use des_ka_project.Types.{
  Transaction, protocol_version, tx_type, effective_asset_id, tx_version_asset, tx_type_transfer,
  tx_type_stake_lock, tx_type_stake_unlock, tx_type_asset_create, tx_type_asset_mint,
  tx_type_asset_burn,
}
use des_ka_project.Types.Codec.{canonical_signing_bytes_with_chain_id}

abbrev pub err_fee_too_low : Error
err_fee_too_low = msg "transaction fee below policy minimum"

abbrev pub err_gas_limit : Error
err_gas_limit = msg "transaction exceeds gas limit"

pub record Quote : Type 0 where
  pub gas_units : ℕ
  pub tx_bytes : ℕ
  pub min_fee : ℕ
  pub requested_fee : ℕ
  pub fee_asset_id : Str
  pub sufficient : Bool

unfoldable pub base_gas : Transaction → FeeParams → Result ℕ
base_gas tx p =
    if tx_type tx =s tx_type_transfer
    then (if effective_asset_id tx =s native_asset_id
        then ok p.base_gas_transfer
        else ok p.base_gas_asset_transfer)
    else if tx_type tx =s tx_type_stake_lock
    then ok p.base_gas_stake_lock
    else if tx_type tx =s tx_type_stake_unlock
    then ok p.base_gas_stake_unlock
    else if tx_type tx =s tx_type_asset_create
    then ok p.base_gas_asset_create
    else if tx_type tx =s tx_type_asset_mint
    then ok p.base_gas_asset_mint
    else if tx_type tx =s tx_type_asset_burn
    then ok p.base_gas_asset_burn
    else err (msg "unsupported fee transaction type")

-- The size in units of `bytes_per_gas`, rounded up.
abbrev size_gas : ℕ → ℕ → ℕ
size_gas size per =
    let bytes_per_gas = if per == 0 then 32 else per in
    if size % bytes_per_gas == 0 then size / bytes_per_gas else size / bytes_per_gas + 1

-- A transaction that pays no fee: a coinbase, one of an older version, or fees switched off.
abbrev pub is_exempt : Transaction → NetworkConfig → Bool
is_exempt tx p = tx.coinbase || ltb (protocol_version tx) tx_version_asset || not p.fee.enabled

-- The gas and the size in bytes. The public key does not count.
unfoldable pub gas_used : Transaction → NetworkConfig → Result (ℕ × ℕ)
unfolding base_gas
gas_used tx p = if is_exempt tx p then ok (0, 0) else (do
  base ← base_gas tx p.fee
  raw ←
      wrap_err "fee estimation encoding failed"
        (canonical_signing_bytes_with_chain_id p.chain_id (record tx { public_key = [] }))
  let size = length raw
  let extra = size_gas size p.fee.bytes_per_gas
  check (ltb (max_u64 - extra) base) (msg "gas calculation overflow")
      then_check check (ltb 0 p.fee.max_gas_per_tx && ltb p.fee.max_gas_per_tx (base + extra))
          err_gas_limit
      then_check ok (base + extra, size))

unfoldable pub minimum_fee : Transaction → NetworkConfig → Result ℕ
minimum_fee tx p = if is_exempt tx p then ok 0 else (do
  (gas, size) ← gas_used tx p
  let price = p.fee.min_gas_price
  check (not (price == 0) && ltb (max_u64 / price) gas) (msg "minimum fee overflow")
      then_check ok (if ltb (gas * price) p.fee.min_fee then p.fee.min_fee else gas * price))

unfoldable pub estimate : Transaction → NetworkConfig → Result Quote
estimate tx p = do
  (gas, size) ← gas_used tx p
  min_fee ← minimum_fee tx p
  ok (record {
    gas_units = gas;
    tx_bytes = size;
    min_fee = min_fee;
    requested_fee = tx.fee;
    fee_asset_id = native_asset_id;
    sufficient = leb min_fee tx.fee;
  })

-- `Validate`
unfoldable pub validate : Transaction → NetworkConfig → Result ⊤
validate tx p = if is_exempt tx p then ok tt else (do
  (gas, size) ← gas_used tx p
  min_fee ← minimum_fee tx p
  check (ltb tx.fee min_fee) err_fee_too_low)
