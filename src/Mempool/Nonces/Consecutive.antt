-- ===== src/Mempool/Nonces/Consecutive.antt =====
-- The nonces of each sender in a selection.
use des_ka_project.Prelude.{
  ℕ, zero, suc, ◌%◌, All, ◌+◌, ◌≡◌, sym, ap, subst, ◌∙◌, false, List, [], ◌∷◌, Str, ◌=s◌, =s→eq,
  none, some, arith, if◌then◌else◌, Bool-cases, inl, inr, Option-cases, ok, ltb, ◌==◌,
}
use des_ka_project.Prelude.Results.{bind-ok}
use des_ka_project.Prelude.Dict.{Dict, get, insert, lookup, get-insert}
use des_ka_project.Prelude.Sorting.{sort}
use des_ka_project.Arith.{max_u64}
use des_ka_project.Config.{NetworkConfig}
use des_ka_project.Types.{Transaction}
use des_ka_project.Types.Crypto.{Crypto}
use des_ka_project.Mempool.{Candidate}
use des_ka_project.Mempool.Nonces.{
  by_sender, all_ready, ready, ready_from, best_head, rest_of, select_heads, transactions_of,
  select_with_nonces, count_all, nonce_less,
}
use des_ka_project.Mempool.Nonces.Senders.{
  IsGrouped, Entry, insert-IsGrouped, empty-IsGrouped, by_sender-IsGrouped, get-all_ready,
  all_ready-IsGrouped, best_head_sound, select_heads-none, select_heads-some,
}

-- The nonces are n, n + 1, and so on.
abbrev pub Consecutive : ℕ → List Transaction → Type 0
Consecutive n [] = Unit
Consecutive n (tx ∷ txs) = (tx.nonce ≡ n) × Consecutive (n + 1) txs

abbrev pub of_sender : Str → List Transaction → List Transaction
of_sender sender [] = []
of_sender sender (tx ∷ txs) =
    if tx.from =s sender then tx ∷ of_sender sender txs else of_sender sender txs

ready_from-Consecutive :
    (n : ℕ) (cs : List Candidate) → Consecutive n (transactions_of (ready_from n cs))
unfolding ready_from
ready_from-Consecutive n [] = tt
ready_from-Consecutive n (c ∷ cs) = elim (Bool-cases (ltb c.tx.nonce n)) [
  | inl e ↦ rw e (ready_from-Consecutive n cs)
  | inr e ↦ rw e (elim (Bool-cases (c.tx.nonce == n)) [
    | inr differs ↦ rw differs tt
    | inl same ↦ rw same (elim (Bool-cases (n == max_u64)) [
      | inl last ↦ rw last (ground arith, tt)
      | inr more ↦ rw more (ground arith, ready_from-Consecutive (n + 1) cs)
    ])
  ])
]

taken :
    (k j : Str) (v : List Candidate) (d : Dict (List Candidate))
    → k ≡ j
    → get [] j (insert k v d) ≡ v
taken k j v d e = ground (arith, get-insert [] k j v d)

kept :
    (k j : Str) (v : List Candidate) (d : Dict (List Candidate))
    → (j =s k) ≡ false
    → get [] j (insert k v d) ≡ get [] j d
kept k j v d e = ground (arith, get-insert [] k j v d)

apart : (a b c : Str) → a ≡ b → (a =s c) ≡ false → (c =s b) ≡ false
apart a b c e h = ground arith

module _ (p : NetworkConfig) (sender : Str) where
  abbrev Own : ℕ → Dict (List Candidate) → Type 0
  Own n d = Consecutive n (transactions_of (get [] sender d))

  select_heads-Consecutive :
      (fuel max_gas used n : ℕ) (d : Dict (List Candidate))
      → IsGrouped p d
      → Own n d
      → Consecutive n (of_sender sender (transactions_of (select_heads fuel max_gas used d)))
  unfolding select_heads
  select_heads-Consecutive zero max_gas used n d g h = tt
  select_heads-Consecutive (suc fuel) max_gas used n d g h =
      elim (Option-cases (best_head max_gas used none d)) [
        | inl e ↦
            subst (λ l. Consecutive n (of_sender sender (transactions_of l)))
              (sym (select_heads-none fuel max_gas used d e)) tt
        | inr ((owner, best), e) ↦
            let (rest, list, fits) = best_head_sound max_gas used d owner best g.distinct e in
            let own : All (Entry p owner) (best ∷ rest) =
              subst (All (Entry p owner)) list (g.owned owner) in
            let rest' = rest_of (get [] owner d) in
            let shorter : rest' ≡ rest = ap rest_of list in
            let grouped : IsGrouped p (insert owner rest' d) =
              insert-IsGrouped p owner rest' d (subst (All (Entry p owner)) (sym shorter) own.1)
                g in
            let used' = (used + best.gas) % 18446744073709551616 in
            subst (λ l. Consecutive n (of_sender sender (transactions_of l)))
              (sym (select_heads-some fuel max_gas used d owner best e))
              (elim (Bool-cases (best.tx.from =s sender)) [
                | inl mine ↦ rw mine (
                    let same : owner ≡ sender = sym own.0.0 ∙ =s→eq mine in
                    let head : Consecutive n (transactions_of (best ∷ rest)) =
                      subst (λ l. Consecutive n (transactions_of l))
                        (ap (λ s. get [] s d) (sym same) ∙ list) h in
                    (
                      head.0,
                      select_heads-Consecutive fuel max_gas used' (n + 1) (insert owner rest' d)
                          grouped
                          (subst (λ l. Consecutive (n + 1) (transactions_of l))
                            (sym (taken owner sender rest' d same ∙ shorter)) head.1),
                    ))
                | inr theirs ↦ rw theirs (
                    select_heads-Consecutive fuel max_gas used' n (insert owner rest' d) grouped (
                      subst (λ l. Consecutive n (transactions_of l))
                        (sym (
                          kept owner sender rest' d
                            (apart best.tx.from owner sender own.0.0 theirs)))
                        h))
              ])
      ]

-- The transactions that a selection takes from a sender whose next nonce is known have this nonce
-- and the following ones, in their order.
pub select_with_nonces-Consecutive :
    (c : Crypto) (txs : List Transaction) (p : NetworkConfig) (max_gas : ℕ) (next_nonce : Dict ℕ)
    (sender : Str) (n : ℕ) (out : List Transaction)
    → lookup sender next_nonce ≡ some n
    → select_with_nonces c txs p max_gas next_nonce ≡ ok out
    → Consecutive n (of_sender sender out)
unfolding select_with_nonces ready
select_with_nonces-Consecutive c txs p max_gas next_nonce sender n out known h =
    let (d, grouping, taking) = bind-ok {r = by_sender c p txs []} h in
    let lists = all_ready next_nonce d in
    let result : transactions_of (select_heads (count_all lists) max_gas 0 lists) ≡ out = cc in
    subst (λ l. Consecutive n (of_sender sender l)) result
      (select_heads-Consecutive p sender (count_all lists) max_gas 0 n lists
        (all_ready-IsGrouped p next_nonce d
          (by_sender-IsGrouped c p txs [] d (empty-IsGrouped p) grouping))
        (rw (get-all_ready next_nonce sender d, known)
          (ready_from-Consecutive n (sort nonce_less (get [] sender d)))))
