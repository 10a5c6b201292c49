-- ===== src/Mempool/Nonces/Senders.antt =====
-- The lists of the senders: each sender has one, of its own candidates.
use des_ka_project.Prelude.{
  ℕ, suc, ◌%◌, ◌+◌, ◌≡◌, refl, sym, ap, subst, not, ltb, ◌==◌, =s→eq, ◌∙◌, Bool, true, false, List,
  [], ◌∷◌, ◌++◌, Str, ◌=s◌, Option, none, some, arith, if◌then◌else◌, All, Bool-cases, inl, inr,
  ◌⊎◌, ok,
}
use des_ka_project.Prelude.Results.{if-cases, bind-ok, then-ok}
use des_ka_project.Prelude.Dict.{Dict, get, insert, lookup, get-insert, lookup-insert}
use des_ka_project.Prelude.Sorting.{sort, insert_sorted}
use des_ka_project.Config.{NetworkConfig}
use des_ka_project.Types.{Transaction, protocol_version, validate_transaction_version}
use des_ka_project.Fees.{validate}
use des_ka_project.Types.Crypto.{Crypto}
use des_ka_project.Mempool.{Candidate}
use des_ka_project.Arith.{max_u64}
use des_ka_project.Mempool.Admission.{gas_of, check_asset_form}
use des_ka_project.Mempool.Nonces.{
  by_sender, check_selectable, all_ready, ready, ready_from, nonce_less, consider, best_head,
  better, exceeds, take_better, select_heads, rest_of,
}

-- What holds of every candidate of a list.
module _ (P : Candidate → Type 0) where
  All-if : (b : Bool) (xs ys : List Candidate) → All P xs → All P ys → All P (if b then xs else ys)
  All-if true xs ys h k = h
  All-if false xs ys h k = k

  pub All-append : (xs ys : List Candidate) → All P xs → All P ys → All P (xs ++ ys)
  All-append [] ys h k = k
  All-append (x ∷ xs) ys (p, h) k = (p, All-append xs ys h k)

  All-insert_sorted :
      (less : Candidate → Candidate → Bool) (x : Candidate) (xs : List Candidate)
      → P x
      → All P xs
      → All P (insert_sorted less x xs)
  All-insert_sorted less x [] p h = (p, h)
  All-insert_sorted less x (y ∷ ys) p (q, h) = elim (Bool-cases (less x y)) [
    | inl e ↦ rw e (p, (q, h))
    | inr e ↦ rw e (q, All-insert_sorted less x ys p h)
  ]

  pub All-sort :
      (less : Candidate → Candidate → Bool) (xs : List Candidate) → All P xs → All P (sort less xs)
  All-sort less [] h = h
  All-sort less (x ∷ xs) (p, h) = All-insert_sorted less x (sort less xs) p (All-sort less xs h)

  pub All-ready_from : (n : ℕ) (xs : List Candidate) → All P xs → All P (ready_from n xs)
  unfolding ready_from
  All-ready_from n [] h = h
  All-ready_from n (x ∷ xs) (p, h) = All-if (ltb x.tx.nonce n) _ _ (All-ready_from n xs h) (
      All-if (not (x.tx.nonce == n)) _ _ tt
        (All-if (n == max_u64) _ _ (p, tt) (p, All-ready_from (n + 1) xs h)))

other : (k j : Str) → (k =s j) ≡ false → (j =s k) ≡ false
other k j h = ground arith

-- No key twice.
abbrev pub Distinct : Dict (List Candidate) → Type 0
Distinct [] = Unit
Distinct ((k, _) ∷ d) = (lookup k d ≡ none) × Distinct d

insert-Distinct :
    (k : Str) (v : List Candidate) (d : Dict (List Candidate))
    → Distinct d
    → Distinct (insert k v d)
insert-Distinct k v [] h = (refl, tt)
insert-Distinct k v ((j, w) ∷ d) (p, h) = elim (Bool-cases (k =s j)) [
  | inl e ↦ rw e (ap (λ i. lookup i d) (=s→eq e) ∙ p, h)
  | inr e ↦ rw e (lookup-insert k j v d ∙ rw (other k j e) p, insert-Distinct k v d h)
]

-- What the code keeps in the list of a sender: its own candidates, with their gas.
abbrev pub Entry : NetworkConfig → Str → Candidate → Type 0
Entry p sender c = (c.tx.from ≡ sender) × (gas_of p c.tx ≡ ok c.gas)

pub record IsGrouped (p : NetworkConfig) (d : Dict (List Candidate)) : Type 0 where
  pub distinct : Distinct d
  pub owned : (sender : Str) → All (Entry p sender) (get [] sender d)

pub empty-IsGrouped : (p : NetworkConfig) → IsGrouped p []
empty-IsGrouped p = record { distinct = tt; owned = λ sender. tt }

-- A list of a sender's own candidates takes the place of its list.
pub insert-IsGrouped :
    (p : NetworkConfig) (k : Str) (v : List Candidate) (d : Dict (List Candidate))
    → All (Entry p k) v
    → IsGrouped p d
    → IsGrouped p (insert k v d)
insert-IsGrouped p k v d h g = record {
  distinct = insert-Distinct k v d g.distinct;
  owned = λ sender. rw (get-insert [] k sender v d) (elim (Bool-cases (sender =s k)) [
    | inl e ↦ rw e (subst (λ s. All (Entry p s) v) (sym (=s→eq e)) h)
    | inr e ↦ rw e (g.owned sender)
  ]);
}

module _ (c : Crypto) (p : NetworkConfig) where
  check_selectable-gas :
      (tx : Transaction) {gas : ℕ} → check_selectable c p tx ≡ ok gas → gas_of p tx ≡ ok gas
  check_selectable-gas tx h =
      (then-ok {r = check_asset_form c p tx}
        (then-ok {r = validate tx p}
          (then-ok {r = validate_transaction_version (protocol_version tx) p.tx_version} h).1).1).1

  pub by_sender-IsGrouped :
      (txs : List Transaction) (d d' : Dict (List Candidate))
      → IsGrouped p d
      → by_sender c p txs d ≡ ok d'
      → IsGrouped p d'
  unfolding by_sender
  by_sender-IsGrouped [] d d' g h = let same : d ≡ d' = cc in subst (IsGrouped p) same g
  by_sender-IsGrouped (tx ∷ txs) d d' g h = elim (if-cases tx.coinbase h) [
    | inl r ↦ by_sender-IsGrouped txs d d' g r
    | inr r ↦
        let (gas, k, r') = bind-ok {r = check_selectable c p tx} r in
        by_sender-IsGrouped txs
          (insert tx.from (get [] tx.from d ++ record { tx = tx; gas = gas } ∷ []) d) d'
          (insert-IsGrouped p tx.from (get [] tx.from d ++ record { tx = tx; gas = gas } ∷ []) d
            (All-append (Entry p tx.from) (get [] tx.from d) (record { tx = tx; gas = gas } ∷ [])
              (g.owned tx.from) ((refl, check_selectable-gas tx k), tt))
            g)
          r'
  ]

-- The runs of nonces, for each sender.
pub get-all_ready :
    (next_nonce : Dict ℕ) (sender : Str) (d : Dict (List Candidate))
    → get [] sender (all_ready next_nonce d) ≡ ready next_nonce sender (get [] sender d)
unfolding all_ready ready ready_from
get-all_ready next_nonce sender [] = refl
get-all_ready next_nonce sender ((k, cs) ∷ d) = elim (Bool-cases (sender =s k)) [
  | inl e ↦ rw e (ap (λ s. ready next_nonce s cs) (sym (=s→eq e)))
  | inr e ↦ rw e (get-all_ready next_nonce sender d)
]

lookup-all_ready :
    (next_nonce : Dict ℕ) (sender : Str) (d : Dict (List Candidate))
    → lookup sender d ≡ none
    → lookup sender (all_ready next_nonce d) ≡ none
unfolding all_ready
lookup-all_ready next_nonce sender [] h = refl
lookup-all_ready next_nonce sender ((k, cs) ∷ d) h =
    ground (arith, lookup-all_ready next_nonce sender d)

all_ready-Distinct :
    (next_nonce : Dict ℕ) (d : Dict (List Candidate))
    → Distinct d
    → Distinct (all_ready next_nonce d)
unfolding all_ready
all_ready-Distinct next_nonce [] h = tt
all_ready-Distinct next_nonce ((k, cs) ∷ d) (p, h) =
    (lookup-all_ready next_nonce k d p, all_ready-Distinct next_nonce d h)

pub all_ready-IsGrouped :
    (p : NetworkConfig) (next_nonce : Dict ℕ) (d : Dict (List Candidate))
    → IsGrouped p d
    → IsGrouped p (all_ready next_nonce d)
unfolding ready
all_ready-IsGrouped p next_nonce d g = record {
  distinct = all_ready-Distinct next_nonce d g.distinct;
  owned = λ sender. rw (get-all_ready next_nonce sender d) (
      All-ready_from (Entry p sender) _ _
        (All-sort (Entry p sender) nonce_less (get [] sender d) (g.owned sender)));
}

get-none : (k : Str) (d : Dict (List Candidate)) → lookup k d ≡ none → get [] k d ≡ []
get-none k [] h = refl
get-none k ((j, v) ∷ d) h = ground (arith, get-none k d)

take_better_cases :
    (k : Str) (x : Candidate) (best : Option (Str × Candidate)) (sender : Str) (c : Candidate)
    → take_better k x best ≡ some (sender, c)
    → (best ≡ some (sender, c)) ⊎ ((k ≡ sender) × (x ≡ c))
take_better_cases k x none sender c h = inr (ground arith)
take_better_cases k x (some (s, b)) sender c h = elim (if-cases (better k x b) h) [
  | inl r ↦ inr (ground arith)
  | inr r ↦ inl r
]

-- A candidate that fits is taken from the head of the list, or the best one stays.
consider_cases :
    (max_gas used : ℕ) (k : Str) (cs : List Candidate) (best : Option (Str × Candidate))
    (sender : Str) (c : Candidate)
    → consider max_gas used k cs best ≡ some (sender, c)
    → (best ≡ some (sender, c))
      ⊎ ((rest : List Candidate) × (k ≡ sender)
          × (cs ≡ c ∷ rest)
          × (exceeds max_gas used c.gas ≡ false))
consider_cases max_gas used k [] best sender c h = inl h
consider_cases max_gas used k (x ∷ cs) best sender c h =
    elim (Bool-cases (exceeds max_gas used x.gas)) [
      | inl e ↦ inl (rw e at h)
      | inr e ↦ elim (take_better_cases k x best sender c (rw e at h)) [
        | inl stays ↦ inl stays
        | inr (own, same) ↦ inr (
          cs,
          own,
          ap (λ y. y ∷ cs) same,
          ap (λ (y : Candidate). exceeds max_gas used y.gas) (sym same) ∙ e,
        )
      ]
    ]

-- The best head is the head of a list, and fits.
best_head_from :
    (max_gas used : ℕ) (best : Option (Str × Candidate)) (d : Dict (List Candidate)) (sender : Str)
    (c : Candidate)
    → Distinct d
    → best_head max_gas used best d ≡ some (sender, c)
    → (best ≡ some (sender, c))
      ⊎ ((rest : List Candidate) × (get [] sender d ≡ c ∷ rest)
          × (exceeds max_gas used c.gas ≡ false))
unfolding best_head
best_head_from max_gas used best [] sender c h e = inl e
best_head_from max_gas used best ((k, cs) ∷ d) sender c (p, h) e =
    elim (best_head_from max_gas used (consider max_gas used k cs best) d sender c h e) [
      | inl r ↦ elim (consider_cases max_gas used k cs best sender c r) [
        | inl stays ↦ inl stays
        | inr (rest, own, list, fits) ↦ inr (rest, ground arith, fits)
      ]
      | inr (rest, list, fits) ↦ inr (rest, ground (arith, get-none k d p), fits)
    ]

pub best_head_sound :
    (max_gas used : ℕ) (d : Dict (List Candidate)) (sender : Str) (c : Candidate)
    → Distinct d
    → best_head max_gas used none d ≡ some (sender, c)
    → (rest : List Candidate) × (get [] sender d ≡ c ∷ rest) × (exceeds max_gas used c.gas ≡ false)
best_head_sound max_gas used d sender c h e =
    elim (best_head_from max_gas used none d sender c h e) [
      | inl r ↦ absurd (cc r)
      | inr found ↦ found
    ]

-- A round of the loop.
module _ (fuel max_gas used : ℕ) (d : Dict (List Candidate)) where
  pub select_heads-none :
      best_head max_gas used none d ≡ none → select_heads (suc fuel) max_gas used d ≡ []
  unfolding select_heads
  select_heads-none e = rw (e, select_heads)

  pub select_heads-some :
      (sender : Str) (best : Candidate)
      → best_head max_gas used none d ≡ some (sender, best)
      → select_heads (suc fuel) max_gas used d
        ≡ best
          ∷ select_heads fuel max_gas
              ((used + best.gas) % 18446744073709551616)
              (insert sender (rest_of (get [] sender d)) d)
  unfolding select_heads
  select_heads-some sender best e = rw (e, select_heads)
