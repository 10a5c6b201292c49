-- ===== src/Ledger/Supply.antt =====
-- The coins that the blocks of a chain brought into being: TotalSupplyWithProfile of
-- deskachain/node/internal/ledger/ledger.go.
use des_ka_project.Prelude.{ℕ, List, [], ◌∷◌, leb, ◌==◌, if◌then◌else◌}
use des_ka_project.Arith.{add_cap}
use des_ka_project.Config.{NetworkConfig, initial_block_reward}
use des_ka_project.Types.{Transaction, tx_version_asset}
use des_ka_project.Types.Block.{Block}

-- What one coinbase adds: a legacy amount also holds the fees.
abbrev pub issued : NetworkConfig → Transaction → ℕ
issued p tx = if leb tx_version_asset p.tx_version then tx.amount else initial_block_reward

abbrev pub supply_of_transactions : NetworkConfig → ℕ → List Transaction → ℕ
supply_of_transactions p total [] = total
supply_of_transactions p total (tx ∷ txs) =
    supply_of_transactions p (if tx.coinbase then add_cap total (issued p tx) else total) txs

abbrev pub supply_of_blocks : NetworkConfig → ℕ → List Block → ℕ
supply_of_blocks p total [] = total
supply_of_blocks p total (b ∷ bs) =
    supply_of_blocks p
      (if b.height == 0 then total else supply_of_transactions p total b.transactions) bs

unfoldable pub total_supply_with_profile : List Block → NetworkConfig → ℕ
total_supply_with_profile blocks p = supply_of_blocks p 0 blocks
