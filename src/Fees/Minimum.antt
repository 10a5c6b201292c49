-- ===== src/Fees/Minimum.antt =====
-- The fee check against the quote (deskachain/node/internal/fees/policy.go: Estimate, MinimumFee,
-- Validate).
use des_ka_project.Prelude.{◌*◌, ◌≤◌, ◌≡◌, false, arith, ok, is_ok}
use des_ka_project.Config.{NetworkConfig}
use des_ka_project.Types.{Transaction}
use des_ka_project.Fees.{Quote, is_exempt, gas_used, minimum_fee, estimate, validate}

-- Where there is a quote for a transaction, the fee check accepts the transaction exactly if the
-- quote says that its fee is sufficient.
pub validate-estimate :
    (tx : Transaction) (p : NetworkConfig) (q : Quote)
    → estimate tx p ≡ ok q
    → is_ok (validate tx p) ≡ q.sufficient
unfolding estimate validate minimum_fee gas_used
validate-estimate tx p q h = ground arith

-- The fee that a quote asks of a transaction that is not exempt is at least the network's smallest
-- fee and at least the gas of the quote times the gas price.
pub estimate_minimum :
    (tx : Transaction) (p : NetworkConfig) (q : Quote)
    → is_exempt tx p ≡ false
    → estimate tx p ≡ ok q
    → (p.fee.min_fee ≤ q.min_fee) × (q.gas_units * p.fee.min_gas_price ≤ q.min_fee)
unfolding estimate minimum_fee
estimate_minimum tx p q n h = ground arith
