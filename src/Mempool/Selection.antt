-- ===== src/Mempool/Selection.antt =====
-- The gas of a selection (Select of deskachain/node/internal/mempool/admission.go).
use des_ka_project.Prelude.{ℕ, ◌+◌, ◌%◌, ◌≤◌, ◌<◌, List, [], ◌∷◌, arith}
use des_ka_project.Mempool.{Candidate, fill}

unfoldable pub total_gas : List Candidate → ℕ
total_gas [] = 0
total_gas (c ∷ cs) = c.gas + total_gas cs

fill_from :
    (max_gas used : ℕ) (cs : List Candidate)
    → 0 < max_gas
    → max_gas < 18446744073709551616
    → used ≤ max_gas
    → used + total_gas (fill max_gas used cs) ≤ max_gas
unfolding fill total_gas
fill_from max_gas used [] p m h = ground arith
fill_from max_gas used (c ∷ cs) p m h = ground (
  arith,
  fill_from max_gas used cs p m h,
  fill_from max_gas ((used + c.gas) % 18446744073709551616) cs p m,
)

-- The gas of the candidates that are taken is at most the gas limit, for a 64-bit limit that is
-- not zero.
pub fill-total_gas :
    (max_gas : ℕ) (cs : List Candidate)
    → 0 < max_gas
    → max_gas < 18446744073709551616
    → total_gas (fill max_gas 0 cs) ≤ max_gas
fill-total_gas max_gas cs p m = omega (arith, fill_from max_gas 0 cs p m (omega arith))
