-- ===== src/Ledger/Maturing.antt =====
-- Coinbase maturity (matureCoinbases of deskachain/node/internal/ledger/maturity.go): what leaves
-- the pending list is what the accounts gain.
use des_ka_project.Prelude.{ℕ, ◌+◌, ◌≡◌, refl, [], ◌∷◌, List, Str, arith, Option, none, some}
use des_ka_project.Prelude.Dict.{Dict, get, get-insert}
use des_ka_project.Arith.{add}
use des_ka_project.Ledger.{MatureLedger, MatureAccount, CoinbaseCredit, zero_account, account}
use des_ka_project.Ledger.Apply.{mature_credit, mature_credits, mature_coinbases, keep_pending}
use des_ka_project.Ledger.Consistent.{pending, IsConsistent}
use des_ka_project.Ledger.Money.{view}

abbrev entry : Str → Dict MatureAccount → MatureAccount
entry b d = get zero_account b d

module _ (b : Str) (maturity height : ℕ) where
  mature_credit-entry :
      (c : CoinbaseCredit) (d : Dict MatureAccount)
      → let (kept, d') = mature_credit maturity height c d in
        ((entry b d').mature + pending b (keep_pending kept [])
          ≡ (entry b d).mature + pending b (c ∷ []))
        × ((entry b d').confirmed ≡ (entry b d).confirmed)
        × ((entry b d').nonce ≡ (entry b d).nonce)
  unfolding mature_credit add
  mature_credit-entry c d =
      let a = entry c.address d in
      ground
        (arith, get-insert zero_account c.address b (record a { mature = a.mature + c.amount }) d)

  pending-keep :
      (o : Option CoinbaseCredit) (cs : List CoinbaseCredit)
      → pending b (keep_pending o cs) ≡ pending b (keep_pending o []) + pending b cs
  pending-keep none cs = ground arith
  pending-keep (some c) cs = ground arith

  -- Maturing the coinbases keeps, for every address, the sum of its mature balance and its pending
  -- coinbases, its confirmed balance and its nonce.
  pub mature_credits-entry :
      (cs : List CoinbaseCredit) (d : Dict MatureAccount)
      → let (cs', d') = mature_credits maturity height cs d in
        ((entry b d').mature + pending b cs' ≡ (entry b d).mature + pending b cs)
        × ((entry b d').confirmed ≡ (entry b d).confirmed)
        × ((entry b d').nonce ≡ (entry b d).nonce)
  unfolding mature_credits
  mature_credits-entry [] d = ground arith
  mature_credits-entry (c ∷ cs) d =
      let (kept, d') = mature_credit maturity height c d in
      let (cs', d'') = mature_credits maturity height cs d' in
      ground (arith, mature_credit-entry c d, mature_credits-entry cs d', pending-keep kept cs')

-- Maturing coinbases keeps the ledger consistent.
pub mature_coinbases-IsConsistent :
    (b j : Str) (height : ℕ) (l : MatureLedger)
    → IsConsistent b (view b j l)
    → IsConsistent b (view b j (mature_coinbases height l))
unfolding mature_coinbases account
mature_coinbases-IsConsistent b j height l g =
    ground (arith, mature_credits-entry b l.maturity height l.coinbases l.accounts)

pub mature_coinbases-profile :
    (height : ℕ) (l : MatureLedger) → (mature_coinbases height l).profile ≡ l.profile
unfolding mature_coinbases
mature_coinbases-profile height l = refl
