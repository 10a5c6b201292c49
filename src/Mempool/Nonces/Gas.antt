-- ===== src/Mempool/Nonces/Gas.antt =====
-- The gas of a selection.
use des_ka_project.Prelude.{
  ℕ, zero, suc, ◌+◌, ◌%◌, ◌≤◌, ◌<◌, ◌≡◌, refl, sym, ap, subst, ◌∙◌, List, [], ◌∷◌, Option-cases,
  inl, inr, none, All, arith, ok, false,
}
use des_ka_project.Prelude.Results.{bind-ok}
use des_ka_project.Prelude.Dict.{Dict, get, insert}
use des_ka_project.Config.{NetworkConfig}
use des_ka_project.Types.{Transaction}
use des_ka_project.Types.Crypto.{Crypto}
use des_ka_project.Mempool.{Candidate}
use des_ka_project.Mempool.Admission.{gas_of, total_gas_of}
use des_ka_project.Mempool.Nonces.{
  by_sender, all_ready, best_head, exceeds, rest_of, select_heads, transactions_of,
  select_with_nonces, count_all,
}
use des_ka_project.Mempool.Nonces.Senders.{
  IsGrouped, Entry, insert-IsGrouped, empty-IsGrouped, by_sender-IsGrouped, all_ready-IsGrouped,
  best_head_sound, select_heads-none, select_heads-some,
}

-- The transactions have a gas, which with what was used before is within the limit.
abbrev pub Fits : NetworkConfig → ℕ → ℕ → List Transaction → Type 0
Fits p max_gas used txs = (gas : ℕ) × (total_gas_of p used txs ≡ ok gas) × (gas ≤ max_gas)

total_gas_of-cons :
    (p : NetworkConfig) (used gas : ℕ) (tx : Transaction) (txs : List Transaction)
    → gas_of p tx ≡ ok gas
    → used + gas ≤ 18446744073709551615
    → total_gas_of p used (tx ∷ txs) ≡ total_gas_of p (used + gas) txs
unfolding total_gas_of
total_gas_of-cons p used gas tx txs e h = rw e (ground arith)

fits_next :
    (max_gas used gas : ℕ)
    → 0 < max_gas
    → used ≤ max_gas
    → exceeds max_gas used gas ≡ false
    → used + gas ≤ max_gas
fits_next max_gas used gas p h e = ground arith

module _ (p : NetworkConfig) (max_gas : ℕ) (limited : 0 < max_gas)
    (small : max_gas ≤ 18446744073709551615) where
  select_heads-Fits :
      (fuel used : ℕ) (d : Dict (List Candidate))
      → IsGrouped p d
      → used ≤ max_gas
      → Fits p max_gas used (transactions_of (select_heads fuel max_gas used d))
  unfolding select_heads total_gas_of
  select_heads-Fits zero used d g h = (used, refl, h)
  select_heads-Fits (suc fuel) used d g h = elim (Option-cases (best_head max_gas used none d)) [
    | inl e ↦
        subst (λ l. Fits p max_gas used (transactions_of l))
          (sym (select_heads-none fuel max_gas used d e)) (used, refl, h)
    | inr ((owner, best), e) ↦
        let (rest, list, fits) = best_head_sound max_gas used d owner best g.distinct e in
        let own : All (Entry p owner) (best ∷ rest) =
          subst (All (Entry p owner)) list (g.owned owner) in
        let rest' = rest_of (get [] owner d) in
        let grouped : IsGrouped p (insert owner rest' d) =
          insert-IsGrouped p owner rest' d
            (subst (All (Entry p owner)) (sym (ap rest_of list)) own.1) g in
        let bound = fits_next max_gas used best.gas limited h fits in
        let exact : (used + best.gas) % 18446744073709551616 ≡ used + best.gas = omega arith in
        let (gas, total, within) =
          select_heads-Fits fuel ((used + best.gas) % 18446744073709551616) (insert owner rest' d)
            grouped (omega arith) in
        subst (λ l. Fits p max_gas used (transactions_of l))
          (sym (select_heads-some fuel max_gas used d owner best e))
          (
            gas,
            total_gas_of-cons p used best.gas best.tx _ own.0.1 (omega arith)
                ∙ ap
                    (λ n. total_gas_of p n (
                      transactions_of (
                        select_heads fuel max_gas ((used + best.gas) % 18446744073709551616)
                          (insert owner rest' d))))
                    (sym exact)
                ∙ total,
            within,
          )
  ]

-- A selection under a gas limit that is not zero and fits in 64 bits has a gas, and it is within
-- the limit.
pub select_with_nonces-Fits :
    (c : Crypto) (txs : List Transaction) (p : NetworkConfig) (max_gas : ℕ) (next_nonce : Dict ℕ)
    (out : List Transaction)
    → 0 < max_gas
    → max_gas ≤ 18446744073709551615
    → select_with_nonces c txs p max_gas next_nonce ≡ ok out
    → Fits p max_gas 0 out
unfolding select_with_nonces
select_with_nonces-Fits c txs p max_gas next_nonce out limited small h =
    let (d, grouping, taking) = bind-ok {r = by_sender c p txs []} h in
    let lists = all_ready next_nonce d in
    let result : transactions_of (select_heads (count_all lists) max_gas 0 lists) ≡ out = cc in
    subst (Fits p max_gas 0) result (
      select_heads-Fits p max_gas limited small (count_all lists) 0 lists
        (all_ready-IsGrouped p next_nonce d
          (by_sender-IsGrouped c p txs [] d (empty-IsGrouped p) grouping))
        (omega arith))
