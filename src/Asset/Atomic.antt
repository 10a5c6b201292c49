-- ===== src/Asset/Atomic.antt =====
-- Transfers and fees of asset/state.go move their amount or change no balance at all.
use des_ka_project.Prelude.{
  ℕ, ◌+◌, ◌-◌, ◌≤◌, ◌≡◌, Bool, false, ◌&&◌, ◌||◌, none, some, Str, ◌=s◌, leb, ◌==◌, not, is_empty,
  if◌then◌else◌, arith, is_ok,
}
use des_ka_project.Arith.{max_u64}
use des_ka_project.Config.{native_asset_id}
use des_ka_project.Asset.{status_frozen}
use des_ka_project.Asset.State.{
  State, balance, add_balance, subtract_balance, transfer, charge_fee, execute_token_transfer,
  fee_collector_address, definition,
}
use des_ka_project.Asset.Balances.{
  add_balance-assets, subtract_balance-assets, add_balance-balance, subtract_balance-balance,
  add_balance-is_ok, subtract_balance-is_ok,
}

-- Every balance is a 64-bit number.
abbrev pub IsBounded : State → Type 0
IsBounded s = (a i : Str) → balance a i s ≤ max_u64

module _ (asset_id from to : Str) (amount : ℕ) (s : State) where
  abbrev transferred : State
  transferred = (transfer asset_id from to amount s).1

  transfer-assets : transferred.assets ≡ s.assets
  unfolding transfer
  transfer-assets =
      let s₁ = (subtract_balance from asset_id amount s).1 in
      let s₂ = (add_balance to asset_id amount s₁).1 in
      ground (
        arith,
        subtract_balance-assets from asset_id amount s,
        add_balance-assets to asset_id amount s₁,
        add_balance-assets from asset_id amount s₂,
      )

  -- Where the sender's balance of the asset is within 64 bits, a transfer that succeeds moves the
  -- amount from the sender to the recipient in that asset alone, and one that fails leaves every
  -- balance of every address as it was.
  pub transfer-balance :
      (b j : Str)
      → balance from asset_id s ≤ max_u64
      → balance b j transferred ≡ (
          if is_ok (transfer asset_id from to amount s).0 && j =s asset_id
          then if b =s from
            then balance b j s - amount
            else if b =s to
            then balance b j s + amount
            else balance b j s
          else balance b j s)
  unfolding transfer
  transfer-balance b j h =
      let s₁ = (subtract_balance from asset_id amount s).1 in
      let s₂ = (add_balance to asset_id amount s₁).1 in
      ground (
        arith,
        subtract_balance-balance from asset_id amount s b j,
        subtract_balance-balance from asset_id amount s from asset_id,
        subtract_balance-is_ok from asset_id amount s,
        add_balance-balance to asset_id amount s₁ b j,
        add_balance-balance to asset_id amount s₁ from asset_id,
        add_balance-balance from asset_id amount s₂ b j,
        add_balance-is_ok from asset_id amount s₂,
      )

-- The tests of `Transfer` that read the definitions and the arguments alone.
abbrev transferable : Str → Str → Str → ℕ → State → Bool
transferable asset_id from to amount s =
    not (amount == 0)
    && not (is_empty from || is_empty to || from =s to)
    && elim (definition asset_id s) [ none ↦ false | some d ↦ not (d.status =s status_frozen) ]

-- Where the recipient's balance is within 64 bits, a transfer succeeds exactly when the amount is
-- not zero, the two addresses are present and differ, the asset is known and not frozen, the
-- sender has the amount and the recipient's balance stays within 64 bits.
pub transfer-is_ok :
    (asset_id from to : Str) (amount : ℕ) (s : State)
    → balance to asset_id s ≤ max_u64
    → is_ok (transfer asset_id from to amount s).0 ≡ (
        transferable asset_id from to amount s
        && leb amount (balance from asset_id s)
        && leb (balance to asset_id s + amount) max_u64)
unfolding transfer definition
transfer-is_ok asset_id from to amount s h =
    let s₁ = (subtract_balance from asset_id amount s).1 in
    ground (
      arith,
      subtract_balance-is_ok from asset_id amount s,
      subtract_balance-balance from asset_id amount s to asset_id,
      add_balance-is_ok to asset_id amount s₁,
    )

module _ (payer : Str) (fee : ℕ) (s : State) where
  charge_fee-assets : (charge_fee payer fee s).1.assets ≡ s.assets
  unfolding charge_fee
  charge_fee-assets =
      let s₁ = (subtract_balance payer native_asset_id fee s).1 in
      let s₂ = (add_balance fee_collector_address native_asset_id fee s₁).1 in
      ground (
        arith,
        subtract_balance-assets payer native_asset_id fee s,
        add_balance-assets fee_collector_address native_asset_id fee s₁,
        add_balance-assets payer native_asset_id fee s₂,
      )

  -- Where the payer's native balance is within 64 bits, a fee that cannot be charged leaves every
  -- balance as it was.
  pub charge_fee_failed :
      (b j : Str)
      → balance payer native_asset_id s ≤ max_u64
      → is_ok (charge_fee payer fee s).0 ≡ false
      → balance b j (charge_fee payer fee s).1 ≡ balance b j s
  unfolding charge_fee
  charge_fee_failed b j h e =
      let s₁ = (subtract_balance payer native_asset_id fee s).1 in
      let s₂ = (add_balance fee_collector_address native_asset_id fee s₁).1 in
      ground (
        arith,
        subtract_balance-balance payer native_asset_id fee s b j,
        subtract_balance-balance payer native_asset_id fee s payer native_asset_id,
        subtract_balance-is_ok payer native_asset_id fee s,
        add_balance-balance fee_collector_address native_asset_id fee s₁ b j,
        add_balance-balance fee_collector_address native_asset_id fee s₁ payer native_asset_id,
        add_balance-balance payer native_asset_id fee s₂ b j,
        add_balance-is_ok payer native_asset_id fee s₂,
      )

transfer-IsBounded :
    (asset_id from to : Str) (amount : ℕ) (s : State)
    → IsBounded s
    → IsBounded (transfer asset_id from to amount s).1
transfer-IsBounded asset_id from to amount s h a i = ground (
  arith,
  transfer-balance asset_id from to amount s a i (h from asset_id),
  transfer-is_ok asset_id from to amount s (h to asset_id),
  h a i,
)

-- Where every balance is within 64 bits, a token transfer with a fee that fails leaves every
-- balance of every address as it was.
pub execute_token_transfer_failed :
    (asset_id from to payer : Str) (amount fee : ℕ) (s : State) (b j : Str)
    → IsBounded s
    → is_ok (execute_token_transfer asset_id from to payer amount fee s).0 ≡ false
    → balance b j (execute_token_transfer asset_id from to payer amount fee s).1 ≡ balance b j s
unfolding execute_token_transfer definition
execute_token_transfer_failed asset_id from to payer amount fee s b j h e =
    let s₁ = (transfer asset_id from to amount s).1 in
    let s₂ = (charge_fee payer fee s₁).1 in
    let h₁ = transfer-IsBounded asset_id from to amount s h in
    ground (
      arith,
      transfer-balance asset_id from to amount s b j (h from asset_id),
      transfer-balance asset_id from to amount s from asset_id (h from asset_id),
      transfer-balance asset_id from to amount s to asset_id (h from asset_id),
      transfer-is_ok asset_id from to amount s (h to asset_id),
      transfer-assets asset_id from to amount s,
      charge_fee_failed payer fee s₁ b j (h₁ payer native_asset_id),
      charge_fee_failed payer fee s₁ from asset_id (h₁ payer native_asset_id),
      charge_fee_failed payer fee s₁ to asset_id (h₁ payer native_asset_id),
      charge_fee-assets payer fee s₁,
      transfer-balance asset_id to from amount s₂ b j,
      transfer-is_ok asset_id to from amount s₂,
      h from asset_id,
      h to asset_id,
    )
