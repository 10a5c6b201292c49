-- ===== src/Asset/Listing.antt =====
-- The sorted lists of asset definitions and balances: Definitions and Balances of
-- deskachain/node/internal/asset/state.go.
use des_ka_project.Prelude.{ℕ, Bool, List, [], ◌∷◌, ◌++◌, map, Str, ◌==◌, if◌then◌else◌}
use des_ka_project.Prelude.Dict.{Dict}
use des_ka_project.Prelude.Sorting.{sort, by_key, by_keys}
use des_ka_project.Asset.{Definition}
use des_ka_project.Asset.State.{State, BalanceEntry}

abbrev pub definition_less : Definition → Definition → Bool
definition_less = by_key (λ d. d.id)

abbrev pub entry_key : BalanceEntry → Str × Str
entry_key e = (e.address, e.asset_id)

abbrev pub entry_less : BalanceEntry → BalanceEntry → Bool
entry_less = by_keys entry_key

-- `Definitions`
unfoldable pub definitions : State → List Definition
definitions s = sort definition_less (map (λ e. e.1) s.assets)

-- The entries of one address; an amount of 0 is left out.
abbrev entries_of : Str → Dict ℕ → List BalanceEntry
entries_of address [] = []
entries_of address ((asset_id, amount) ∷ d) =
    let rest = entries_of address d in
    if amount == 0
    then rest
    else record { address = address; asset_id = asset_id; amount = amount } ∷ rest

abbrev entries : Dict (Dict ℕ) → List BalanceEntry
entries [] = []
entries ((address, assets) ∷ d) = entries_of address assets ++ entries d

-- `Balances`
unfoldable pub balances : State → List BalanceEntry
balances s = sort entry_less (entries s.balances)
