-- ===== src/Mempool/Nonces/Rounds.antt =====
-- The rounds of the loop of SelectWithNonces.
use des_ka_project.Prelude.{
  ℕ, zero, suc, ◌+◌, ◌%◌, ◌≤◌, ◌≡◌, refl, sym, ap, ◌∙◌, List, [], ◌∷◌, Option-cases, inl, inr, none,
  arith, length, Str, All, subst,
}
use des_ka_project.Prelude.Dict.{Dict, get, insert, sum-insert}
use des_ka_project.Config.{NetworkConfig}
use des_ka_project.Mempool.{Candidate}
use des_ka_project.Mempool.Nonces.{best_head, rest_of, select_heads, count_all}
use des_ka_project.Mempool.Nonces.Senders.{
  IsGrouped, Entry, insert-IsGrouped, best_head_sound, select_heads-none, select_heads-some,
}

-- A round takes one candidate away.
count_all-insert :
    (k : Str) (c : Candidate) (rest : List Candidate) (d : Dict (List Candidate))
    → get [] k d ≡ c ∷ rest
    → count_all (insert k (rest_of (get [] k d)) d) + 1 ≡ count_all d
count_all-insert k c rest d e = omega (
  arith,
  sum-insert length [] k (rest_of (get [] k d)) d refl,
  ap length e,
  ap (λ l. length (rest_of l)) e,
)

-- With no candidates there is no best one.
best_head_empty :
    (p : NetworkConfig) (max_gas used : ℕ) (d : Dict (List Candidate))
    → IsGrouped p d
    → count_all d ≤ 0
    → best_head max_gas used none d ≡ none
best_head_empty p max_gas used d g h = elim (Option-cases (best_head max_gas used none d)) [
  | inl e ↦ e
  | inr ((owner, best), e) ↦
      let (rest, list, fits) = best_head_sound max_gas used d owner best g.distinct e in
      absurd (omega (arith, count_all-insert owner best rest d list))
]

select_heads_zero :
    (p : NetworkConfig) (fuel max_gas used : ℕ) (d : Dict (List Candidate))
    → IsGrouped p d
    → count_all d ≤ 0
    → select_heads fuel max_gas used d ≡ []
unfolding select_heads
select_heads_zero p zero max_gas used d g h = refl
select_heads_zero p (suc fuel) max_gas used d g h =
    select_heads-none fuel max_gas used d (best_head_empty p max_gas used d g h)

-- The loop over grouped candidates gives the same for any two amounts of fuel that are at least
-- the number of candidates.
pub select_heads_fuel :
    (p : NetworkConfig) (fuel more max_gas used : ℕ) (d : Dict (List Candidate))
    → IsGrouped p d
    → count_all d ≤ fuel
    → count_all d ≤ more
    → select_heads fuel max_gas used d ≡ select_heads more max_gas used d
select_heads_fuel p zero more max_gas used d g h k =
    select_heads_zero p zero max_gas used d g h ∙ sym (select_heads_zero p more max_gas used d g h)
select_heads_fuel p (suc fuel) zero max_gas used d g h k =
    select_heads_zero p (suc fuel) max_gas used d g k
    ∙ sym (select_heads_zero p zero max_gas used d g k)
select_heads_fuel p (suc fuel) (suc more) max_gas used d g h k =
    elim (Option-cases (best_head max_gas used none d)) [
      | inl e ↦
          select_heads-none fuel max_gas used d e ∙ sym (select_heads-none more max_gas used d e)
      | inr ((owner, best), e) ↦
          let (rest, list, fits) = best_head_sound max_gas used d owner best g.distinct e in
          let own : All (Entry p owner) (best ∷ rest) =
            subst (All (Entry p owner)) list (g.owned owner) in
          let rest' = rest_of (get [] owner d) in
          let grouped : IsGrouped p (insert owner rest' d) =
            insert-IsGrouped p owner rest' d
              (subst (All (Entry p owner)) (sym (ap rest_of list)) own.1) g in
          let fewer = count_all-insert owner best rest d list in
          let used' = (used + best.gas) % 18446744073709551616 in
          select_heads-some fuel max_gas used d owner best e
          ∙ ap (λ l. best ∷ l)
              (select_heads_fuel p fuel more max_gas used' (insert owner rest' d) grouped
                (omega (arith, fewer, h)) (omega (arith, fewer, k)))
          ∙ sym (select_heads-some more max_gas used d owner best e)
    ]
