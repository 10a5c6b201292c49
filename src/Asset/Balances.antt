-- ===== src/Asset/Balances.antt =====
-- What the two balance updates of asset/state.go do to every balance, to the definitions and to
-- the amount of an asset in circulation. The other proofs keep the updates shut and use these.
use des_ka_project.Prelude.{
  ℕ, ◌+◌, ◌-◌, ◌≤◌, ◌≡◌, refl, ap, ◌&&◌, none, some, [], ◌∷◌, Str, ◌=s◌, leb, if◌then◌else◌, arith,
  is_ok,
}
use des_ka_project.Prelude.Dict.{Dict, lookup, get, insert, get-insert, sum, sum-insert}
use des_ka_project.Arith.{max_u64}
use des_ka_project.Asset.State.{
  State, balance, set_balance, ensure_account, add_balance, subtract_balance,
}

-- The sum of the balances of one asset over all accounts.
unfoldable pub circulating : Str → State → ℕ
circulating asset_id s = sum (get 0 asset_id) s.balances

-- An absent account reads as the empty one.
get_of_none : (a : Str) (d : Dict (Dict ℕ)) → lookup a d ≡ none → get [] a d ≡ []
get_of_none a [] h = refl
get_of_none a ((b, m) ∷ d) h = ground (arith, get_of_none a d)

-- Reading with a default agrees with the search.
get-lookup :
    (a : Str) (d : Dict (Dict ℕ)) → get [] a d ≡ elim (lookup a d) [ none ↦ [] | some m ↦ m ]
get-lookup a [] = refl
get-lookup a ((b, m) ∷ d) = ground (arith, get-lookup a d)

module _ (a i : Str) where
  balance-set_balance :
      (v : ℕ) (s : State) (b j : Str)
      → balance b j (set_balance a i v s) ≡ (if b =s a && j =s i then v else balance b j s)
  unfolding balance
  balance-set_balance v s b j = ground (
    arith,
    get-insert [] a b (insert i v (get [] a s.balances)) s.balances,
    get-insert 0 i j v (get [] a s.balances),
  )

  circulating-set_balance :
      (v : ℕ) (s : State) (j : Str)
      → circulating j (set_balance a i v s) + balance a j s
        ≡ circulating j s + (if j =s i then v else balance a j s)
  unfolding circulating balance
  circulating-set_balance v s j = ground (
    arith,
    sum-insert (get 0 j) [] a (insert i v (get [] a s.balances)) s.balances refl,
    get-insert 0 i j v (get [] a s.balances),
  )

get-ensure_account :
    (a b : Str) (s : State) → get [] b (ensure_account a s).balances ≡ get [] b s.balances
unfolding ensure_account
get-ensure_account a b s = ground (arith, get-insert [] a b [] s.balances, get_of_none a s.balances)

balance-ensure_account :
    (a b j : Str) (s : State) → balance b j (ensure_account a s) ≡ balance b j s
unfolding balance
balance-ensure_account a b j s = ap (get 0 j) (get-ensure_account a b s)

circulating-ensure_account :
    (a j : Str) (s : State) → circulating j (ensure_account a s) ≡ circulating j s
unfolding circulating ensure_account
circulating-ensure_account a j s =
    ground (arith, get_of_none a s.balances, sum-insert (get 0 j) [] a [] s.balances refl)

module _ (a i : Str) (n : ℕ) (s : State) where
  pub add_balance-assets : (add_balance a i n s).1.assets ≡ s.assets
  unfolding add_balance
  add_balance-assets = ground arith

  pub subtract_balance-assets : (subtract_balance a i n s).1.assets ≡ s.assets
  unfolding subtract_balance
  subtract_balance-assets = ground arith

  pub add_balance-balance :
      (b j : Str)
      → balance b j (add_balance a i n s).1 ≡ (
          if is_ok (add_balance a i n s).0 && (b =s a && j =s i)
          then balance b j s + n
          else balance b j s)
  unfolding add_balance balance
  add_balance-balance b j =
      let s' = ensure_account a s in
      let v = get 0 i (get [] a s'.balances) in
      ground (
        arith,
        balance-set_balance a i (v + n) s' b j,
        balance-ensure_account a b j s,
        get-ensure_account a a s,
      )

  pub add_balance-circulating :
      (j : Str)
      → circulating j (add_balance a i n s).1
        ≡ (if is_ok (add_balance a i n s).0 && j =s i then circulating j s + n else circulating j s)
  unfolding add_balance balance
  add_balance-circulating j =
      let s' = ensure_account a s in
      let v = get 0 i (get [] a s'.balances) in
      ground (
        arith,
        circulating-set_balance a i (v + n) s' j,
        circulating-ensure_account a j s,
        get-ensure_account a a s,
      )

  -- The addition fails exactly when the balance would pass the largest 64-bit number.
  pub add_balance-is_ok :
      balance a i s ≤ max_u64 → is_ok (add_balance a i n s).0 ≡ leb (balance a i s + n) max_u64
  unfolding add_balance balance
  add_balance-is_ok h = ground (arith, get-ensure_account a a s)

  pub subtract_balance-balance :
      (b j : Str)
      → balance b j (subtract_balance a i n s).1 ≡ (
          if is_ok (subtract_balance a i n s).0 && (b =s a && j =s i)
          then balance b j s - n
          else balance b j s)
  unfolding subtract_balance balance
  subtract_balance-balance b j = ground (
    arith,
    get-lookup a s.balances,
    balance-set_balance a i (get 0 i (get [] a s.balances) - n) s b j,
  )

  pub subtract_balance-circulating :
      (j : Str)
      → (if is_ok (subtract_balance a i n s).0 && j =s i
          then circulating j (subtract_balance a i n s).1 + n ≡ circulating j s
          else circulating j (subtract_balance a i n s).1 ≡ circulating j s)
  unfolding subtract_balance balance
  subtract_balance-circulating j = ground (
    arith,
    get-lookup a s.balances,
    circulating-set_balance a i (get 0 i (get [] a s.balances) - n) s j,
  )

  -- The subtraction fails exactly when the balance is too small.
  pub subtract_balance-is_ok : is_ok (subtract_balance a i n s).0 ≡ leb n (balance a i s)
  unfolding subtract_balance balance
  subtract_balance-is_ok = ground (arith, get-lookup a s.balances, get_of_none a s.balances)
