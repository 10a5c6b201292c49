-- ===== src/Tests/Roots.antt =====
-- State roots of two accounts in either order.
use mathlib.Core.List.{Permᴰ, Pairwise, Pairwise-pair, Pairwise-singleton}
use mathlib.Core.List.Permᴰ
use des_ka_project.Prelude.{◌≡◌, ◌≢◌, refl, ap, [], ◌∷◌}
use des_ka_project.Ledger.{StateAccount}
use des_ka_project.Asset.State.{native_definition}
use des_ka_project.Asset.State.{BalanceEntry}
use des_ka_project.Asset.Listing.{entry_key}
use des_ka_project.StateRoot.{root_for_collections_with_assets}
use des_ka_project.StateRoot.Order.{Distinct, root_for_collections_with_assets-Permᴰ}
use des_ka_project.Tests.Data.{alice, bob, gold, toy}

abbrev of_alice : StateAccount
of_alice = record { address = alice; confirmed = 5; mature = 5; nonce = 1 }

abbrev of_bob : StateAccount
of_bob = record { address = bob; confirmed = 9; mature = 2; nonce = 0 }

abbrev gold_of_alice : BalanceEntry
gold_of_alice = record { address = alice; asset_id = gold; amount = 50 }

abbrev gold_of_bob : BalanceEntry
gold_of_bob = record { address = bob; asset_id = gold; amount = 20 }

apart : alice ≢ bob
apart e = cc

addresses_apart_prop : (a b : StateAccount) → IsProp (a.address ≢ b.address)
addresses_apart_prop a b = hlevel

keys_apart_prop : (a b : BalanceEntry) → IsProp (entry_key a ≢ entry_key b)
keys_apart_prop a b = hlevel

two_accounts-Distinct : Distinct (λ (a : StateAccount). a.address) (of_alice ∷ of_bob ∷ [])
two_accounts-Distinct = (Pairwise-pair addresses_apart_prop {a = of_alice} {b = of_bob}).1 apart

two_balances-Distinct : Distinct entry_key (gold_of_alice ∷ gold_of_bob ∷ [])
two_balances-Distinct =
    (Pairwise-pair keys_apart_prop {a = gold_of_alice} {b = gold_of_bob}).1
      (λ e. apart (ap (λ k. k.0) e))

root_for_collections_with_assets-Permᴰ_example :
    root_for_collections_with_assets toy
      (of_alice ∷ of_bob ∷ [])
      []
      (native_definition ∷ [])
      (gold_of_alice ∷ gold_of_bob ∷ [])
    ≡ root_for_collections_with_assets toy
        (of_bob ∷ of_alice ∷ [])
        []
        (native_definition ∷ [])
        (gold_of_bob ∷ gold_of_alice ∷ [])
root_for_collections_with_assets-Permᴰ_example =
    root_for_collections_with_assets-Permᴰ toy (of_alice ∷ of_bob ∷ []) (of_bob ∷ of_alice ∷ []) []
      [] (native_definition ∷ []) (native_definition ∷ []) (gold_of_alice ∷ gold_of_bob ∷ [])
      (gold_of_bob ∷ gold_of_alice ∷ []) (Permᴰ.swap refl refl) two_accounts-Distinct
      (Permᴰ.refl []) Pairwise.nil (Permᴰ.refl (native_definition ∷ []))
      (Pairwise-singleton (λ d e. d.id ≢ e.id) native_definition) (Permᴰ.swap refl refl)
      two_balances-Distinct
