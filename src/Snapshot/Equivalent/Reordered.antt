-- ===== src/Snapshot/Equivalent/Reordered.antt =====
-- Equivalent of deskachain/node/internal/state/snapshot.go and the reordering of entries.
use mathlib.Core.List.{Permᴰ, Pairwise}
use mathlib.Core.List.Permᴰ
use mathlib.Core.List.Pairwise
use des_ka_project.Prelude.{
  ◌≡◌, ◌≢◌, ◌↔◌, refl, sym, subst, Bool, true, false, not, ◌&&◌, ◌||◌, List, [], ◌∷◌, ◌=s◌, ◌==◌,
  if◌then◌else◌, arith,
}
use des_ka_project.Prelude.Sorting.{
  sort, Apart, sort-Permᴰ, sort-Permᴰ_self, str_ltb_asym, str_ltb_trans, str_ltb_total,
}
use des_ka_project.Asset.Listing.{entry_key, definition_less, entry_less}
use des_ka_project.Ledger.{StateCoinbase}
use des_ka_project.StateRoot.{stake_key, stable_digest_inputs, account_less, stake_less}
use des_ka_project.StateRoot.Order.{Distinct, sort-by_key, sort-by_keys}
use des_ka_project.Snapshot.{Snapshot, coinbase_less}
use des_ka_project.Snapshot.Equivalent.{
  same_bool, same_account, same_stake, same_coinbase, same_definition, same_entry, same_list,
  equivalent,
}

both : {a b : Bool} → (a && b) ≡ true → (a ≡ true) × (b ≡ true)
both h = (ground arith, ground arith)

-- A test that tells exactly whether two are equal.
abbrev IsEquality : {A : Type 0} → (A → A → Bool) → Type 0
IsEquality {A} same = ((x y : A) → same x y ≡ true → x ≡ y) × ((x : A) → same x x ≡ true)

same_account-IsEquality : IsEquality same_account
same_account-IsEquality = ((λ x y h. ground arith), (λ x. ground arith))

same_stake-IsEquality : IsEquality same_stake
same_stake-IsEquality = ((λ x y h. ground arith), (λ x. ground arith))

same_coinbase-IsEquality : IsEquality same_coinbase
same_coinbase-IsEquality = ((λ x y h. ground arith), (λ x. ground arith))

same_bool-IsEquality : IsEquality same_bool
same_bool-IsEquality = ((λ x y h. ground arith), (λ x. ground arith))

same_definition-IsEquality : IsEquality same_definition
same_definition-IsEquality = ((λ x y h. ground arith), (λ x. ground arith))

same_entry-IsEquality : IsEquality same_entry
same_entry-IsEquality = ((λ x y h. ground arith), (λ x. ground arith))

module _ {A : Type 0} (same : A → A → Bool) (h : IsEquality same) where
  same_list_eq : (xs ys : List A) → same_list same xs ys ≡ true → xs ≡ ys
  unfolding same_list
  same_list_eq [] [] e = refl
  same_list_eq [] (y ∷ ys) e = ground arith
  same_list_eq (x ∷ xs) [] e = ground arith
  same_list_eq (x ∷ xs) (y ∷ ys) e =
      let (head, tail) = both e in cc (h.0 x y head, same_list_eq xs ys tail)

  same_list_refl : (xs : List A) → same_list same xs xs ≡ true
  unfolding same_list
  same_list_refl [] = refl
  same_list_refl (x ∷ xs) = rw (h.1 x, same_list_refl xs) refl

  -- Lists that are the same when sorted are reorderings of each other.
  same_list-Permᴰ :
      (less : A → A → Bool) (xs ys : List A)
      → same_list same (sort less xs) (sort less ys) ≡ true
      → Permᴰ xs ys
  same_list-Permᴰ less xs ys e = Permᴰ.trans (sort-Permᴰ_self less xs) (
      subst (λ zs. Permᴰ zs ys) (sym (same_list_eq (sort less xs) (sort less ys) e))
        (Permᴰ.symm (sort-Permᴰ_self less ys)))

  same_list_sorted :
      (less : A → A → Bool) (xs ys : List A)
      → sort less xs ≡ sort less ys
      → same_list same (sort less xs) (sort less ys) ≡ true
  same_list_sorted less xs ys e = rw e (same_list_refl (sort less ys))

coinbase_less_trans :
    (x y z : StateCoinbase)
    → coinbase_less x y ≡ true
    → coinbase_less y z ≡ true
    → coinbase_less x z ≡ true
coinbase_less_trans x y z h k = ground (
  arith,
  str_ltb_trans x.address y.address z.address,
  str_ltb_asym x.address y.address,
  str_ltb_asym y.address z.address,
)

coinbase_less-Apart : (x y : StateCoinbase) → x ≢ y → Apart coinbase_less x y
coinbase_less-Apart x y h =
    ground (arith, str_ltb_asym x.address y.address, str_ltb_total x.address y.address)

-- The same snapshot with its entries in another order.
pub record Reordered (a b : Snapshot) : Type 0 where
  pub version_same : a.version ≡ b.version
  pub height_same : a.height ≡ b.height
  pub root_same : a.state_root ≡ b.state_root
  pub accounts_same : Permᴰ a.accounts b.accounts
  pub stakes_same : Permᴰ a.stakes b.stakes
  pub coinbases_same : Permᴰ a.coinbases b.coinbases
  pub assets_same : Permᴰ a.assets b.assets
  pub balances_same : Permᴰ a.asset_balances b.asset_balances

-- The entries of each collection have different keys.
pub record HasDistinctKeys (a : Snapshot) : Type 0 where
  pub accounts_apart : Distinct (λ x. x.address) a.accounts
  pub stakes_apart : Distinct stake_key a.stakes
  pub coinbases_apart : Pairwise (λ x y. x ≢ y) a.coinbases
  pub assets_apart : Distinct (λ x. x.id) a.assets
  pub balances_apart : Distinct entry_key a.asset_balances

guarded : {x y : Bool} → (if x then false else y) ≡ true → (x ≡ false) × (y ≡ true)
guarded h = (ground arith, ground arith)

pub equivalent-Reordered : (a b : Snapshot) → equivalent a b ≡ true → Reordered a b
unfolding equivalent stable_digest_inputs
equivalent-Reordered a b h =
    let (header, entries) = guarded h in
    let (accounts, h₁) = both entries in
    let (stakes, h₂) = both h₁ in
    let (coinbases, h₃) = both h₂ in
    let (assets, balances) = both h₃ in
    record {
      version_same = ground arith;
      height_same = ground arith;
      root_same = ground arith;
      accounts_same =
          same_list-Permᴰ same_account same_account-IsEquality account_less a.accounts b.accounts
            accounts;
      stakes_same =
          same_list-Permᴰ same_stake same_stake-IsEquality stake_less a.stakes b.stakes stakes;
      coinbases_same =
          same_list-Permᴰ same_coinbase same_coinbase-IsEquality coinbase_less a.coinbases
            b.coinbases coinbases;
      assets_same =
          same_list-Permᴰ same_definition same_definition-IsEquality definition_less a.assets
            b.assets assets;
      balances_same =
          same_list-Permᴰ same_entry same_entry-IsEquality entry_less a.asset_balances
            b.asset_balances balances;
    }

Reordered-equivalent : (a b : Snapshot) → HasDistinctKeys a → Reordered a b → equivalent a b ≡ true
unfolding equivalent stable_digest_inputs
Reordered-equivalent a b d r =
    let accounts =
      same_list_sorted same_account same_account-IsEquality account_less a.accounts b.accounts
        (sort-by_key (λ x. x.address) r.accounts_same d.accounts_apart) in
    let stakes =
      same_list_sorted same_stake same_stake-IsEquality stake_less a.stakes b.stakes
        (sort-by_keys stake_key r.stakes_same d.stakes_apart) in
    let coinbases =
      same_list_sorted same_coinbase same_coinbase-IsEquality coinbase_less a.coinbases b.coinbases
        (sort-Permᴰ coinbase_less coinbase_less_trans r.coinbases_same
          (Pairwise.imp coinbase_less-Apart d.coinbases_apart)) in
    let assets =
      same_list_sorted same_definition same_definition-IsEquality definition_less a.assets b.assets
        (sort-by_key (λ x. x.id) r.assets_same d.assets_apart) in
    let balances =
      same_list_sorted same_entry same_entry-IsEquality entry_less a.asset_balances b.asset_balances
        (sort-by_keys entry_key r.balances_same d.balances_apart) in
    let header : (not (a.version == b.version)
          || (not (a.height == b.height) || not (a.state_root =s b.state_root)))
        ≡ false =
      ground (arith, r.version_same, r.height_same, r.root_same) in
    rw (header, accounts, stakes, coinbases, assets, balances) refl

-- Two snapshots, the first with different keys in each of its collections, are equivalent exactly
-- if they agree in version, height and state root and each collection of the one is a reordering
-- of the other's.
pub equivalent_lem : (a b : Snapshot) → HasDistinctKeys a → (equivalent a b ≡ true) ↔ Reordered a b
equivalent_lem a b d = (equivalent-Reordered a b, Reordered-equivalent a b d)
