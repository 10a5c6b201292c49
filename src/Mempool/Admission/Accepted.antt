-- ===== src/Mempool/Admission/Accepted.antt =====
-- The pool after an admission.
use des_ka_project.Prelude.{
  ℕ, ◌+◌, ◌-◌, ◌≤◌, ◌<◌, ◌≡◌, refl, sym, ap, subst, false, ◌&&◌, List, [], ◌∷◌, ◌++◌, Str, ◌=s◌,
  ltb, leb, ◌==◌, All, arith, Error, Result, ⊤, ok, err, length, msg, check, Result-cases, inl, inr,
}
use des_ka_project.Prelude.Results.{check-ok, then-ok, bind-ok}
use des_ka_project.Arith.{max_u64}
use des_ka_project.Config.{NetworkConfig}
use des_ka_project.Types.{Transaction}
use des_ka_project.Types.Crypto.{Crypto}
use des_ka_project.Mempool.{
  mem, unique_from, unique_transactions, has_id, load, save, add, err_duplicate_tx,
}
use des_ka_project.Mempool.Admission.{
  AdmissionPolicy, gas_of, check_clash, total_gas_of, check_capacity, validate_for_revalidation,
  admit,
}

-- A transaction with a new id goes behind those that the pool keeps.
unique_from-append :
    (seen : List Str) (txs : List Transaction) (tx : Transaction)
    → mem tx.id seen ≡ false
    → has_id tx.id (unique_from seen txs) ≡ false
    → unique_from seen (unique_from seen txs ++ tx ∷ []) ≡ unique_from seen txs ++ tx ∷ []
unfolding unique_from
unique_from-append seen [] tx h k = ground arith
unique_from-append seen (x ∷ txs) tx h k =
    ground (arith, unique_from-append seen txs tx h, unique_from-append (x.id ∷ seen) txs tx)

-- No transaction has the sender and the nonce.
abbrev pub NoClash : Transaction → List Transaction → Type 0
NoClash tx txs = All (λ (x : Transaction). (x.from =s tx.from && x.nonce == tx.nonce) ≡ false) txs

check_clash-ok :
    (tx : Transaction) (txs : List Transaction)
    → check_clash tx txs ≡ ok tt
    → (has_id tx.id txs ≡ false) × NoClash tx txs
unfolding check_clash
check_clash-ok tx [] h = (refl, tt)
check_clash-ok tx (x ∷ txs) h =
    let (other_id, rest) = then-ok {r = check (x.id =s tx.id) err_duplicate_tx} h in
    let (no_clash, rest') =
      then-ok
        {r = check (x.from =s tx.from && x.nonce == tx.nonce)
          (msg "transaction nonce already pending")}
        rest in
    let (fresh, apart) = check_clash-ok tx txs rest' in
    (
      ground (arith, check-ok (x.id =s tx.id) err_duplicate_tx other_id),
      (check-ok _ _ no_clash, apart),
    )

total_gas_of-append :
    (p : NetworkConfig) (total gas : ℕ) (txs : List Transaction) (tx : Transaction) (sum : ℕ)
    → total_gas_of p total txs ≡ ok sum
    → gas_of p tx ≡ ok gas
    → ltb (max_u64 - sum) gas ≡ false
    → total_gas_of p total (txs ++ tx ∷ []) ≡ ok (sum + gas)
unfolding total_gas_of
total_gas_of-append p total gas [] tx sum h e k = rw e (ground arith)
total_gas_of-append p total gas (x ∷ txs) tx sum h e k =
    let (g, found, rest) = bind-ok {r = gas_of p x} h in
    let (fits, rest') =
      then-ok {r = check (ltb (max_u64 - total) g) (msg "mempool gas total overflow")} rest in
    rw found (rw fits (total_gas_of-append p (total + g) gas txs tx sum rest' e k))

within_limit : (limit n : ℕ) → 0 < limit → (ltb 0 limit && ltb limit n) ≡ false → n ≤ limit
within_limit limit n p h = ground arith

-- What the capacity check establishes.
module _ (policy : AdmissionPolicy) (tx : Transaction) (txs : List Transaction)
    (h : check_capacity policy tx txs ≡ ok tt) where
  check_capacity-apart : (has_id tx.id txs ≡ false) × NoClash tx txs
  unfolding check_capacity
  check_capacity-apart = check_clash-ok tx txs (then-ok {r = check_clash tx txs} h).0

  check_capacity-gas :
      0 < policy.max_gas
      → (gas : ℕ) × (total_gas_of policy.profile 0 (txs ++ tx ∷ []) ≡ ok gas)
        × (gas ≤ policy.max_gas)
  unfolding check_capacity
  check_capacity-gas limited =
      let (_, rest) = then-ok {r = check_clash tx txs} h in
      let (_, rest') =
        then-ok
          {r = check (ltb 0 policy.max_txs && leb policy.max_txs (length txs))
            (msg "mempool transaction limit reached")}
          rest in
      let (gas, own, rest'') = bind-ok {r = gas_of policy.profile tx} rest' in
      let (total, others, last) = bind-ok {r = total_gas_of policy.profile 0 txs} rest'' in
      let (room, within) =
        then-ok {r = check (ltb (max_u64 - total) gas) (msg "mempool gas total overflow")} last in
      let no_overflow = check-ok _ _ room in
      let no_excess = check-ok _ _ within in
      (
        total + gas,
        total_gas_of-append policy.profile 0 gas txs tx total others own no_overflow,
        within_limit policy.max_gas (total + gas) limited no_excess,
      )

-- What an admission leaves: the transactions that the pool keeps, and behind them the new one. None
-- of them has its id or its sender and nonce, and the gas of all is within the limit.
pub record IsAdmitted (policy : AdmissionPolicy) (tx : Transaction) (s s' : List Transaction)
    : Type 0 where
  pub appended : s' ≡ unique_transactions s ++ tx ∷ []
  pub new_id : has_id tx.id (unique_transactions s) ≡ false
  pub new_nonce : NoClash tx (unique_transactions s)
  pub gas :
      0 < policy.max_gas
      → (gas : ℕ) × (total_gas_of policy.profile 0 s' ≡ ok gas) × (gas ≤ policy.max_gas)

add-appends :
    (tx : Transaction) (s : List Transaction)
    → has_id tx.id (unique_transactions s) ≡ false
    → add tx s ≡ (ok tt, unique_transactions s ++ tx ∷ [])
unfolding add load save unique_transactions
add-appends tx s h = rw h (ap (λ l. (ok tt, l)) (unique_from-append [] s tx refl h))

abbrev pub Outcome :
    AdmissionPolicy → Transaction → List Transaction → Result ⊤ × List Transaction → Type 0
Outcome policy tx s (ok _, s') = IsAdmitted policy tx s s'
Outcome policy tx s (err _, s') = s' ≡ s

module _ (c : Crypto) (tx : Transaction) (policy : AdmissionPolicy) (s : List Transaction) where
  admit_invalid :
      (e : Error) → validate_for_revalidation c tx policy ≡ err e → admit c tx policy s ≡ (err e, s)
  unfolding admit
  admit_invalid e r = rw (r, admit) refl

  module _ (valid : validate_for_revalidation c tx policy ≡ ok tt) where
    admit_refused :
        (e : Error)
        → check_capacity policy tx (unique_transactions s) ≡ err e
        → admit c tx policy s ≡ (err e, s)
    unfolding admit
    admit_refused e k = rw (valid, k, admit) refl

    admit_accepted :
        check_capacity policy tx (unique_transactions s) ≡ ok tt
        → admit c tx policy s ≡ (ok tt, unique_transactions s ++ tx ∷ [])
    unfolding admit
    admit_accepted k =
        rw (valid, k, admit)
          (add-appends tx s (check_capacity-apart policy tx (unique_transactions s) k).0)

    check_capacity-IsAdmitted :
        check_capacity policy tx (unique_transactions s) ≡ ok tt
        → IsAdmitted policy tx s (unique_transactions s ++ tx ∷ [])
    check_capacity-IsAdmitted k = record {
      appended = refl;
      new_id = (check_capacity-apart policy tx (unique_transactions s) k).0;
      new_nonce = (check_capacity-apart policy tx (unique_transactions s) k).1;
      gas = check_capacity-gas policy tx (unique_transactions s) k;
    }

  -- An admission that succeeds leaves the pool with the new transaction last, its id and its pair
  -- of sender and nonce new, and the gas of all within a limit that is not zero; one that is
  -- refused leaves the pool as it was.
  pub admit-Outcome : Outcome policy tx s (admit c tx policy s)
  admit-Outcome = elim (Result-cases (validate_for_revalidation c tx policy)) [
    | inr (e, r) ↦ subst (Outcome policy tx s) (sym (admit_invalid e r)) refl
    | inl (tt, r) ↦ elim (Result-cases (check_capacity policy tx (unique_transactions s))) [
      | inr (e, k) ↦ subst (Outcome policy tx s) (sym (admit_refused r e k)) refl
      | inl (tt, k) ↦
          subst (Outcome policy tx s) (sym (admit_accepted r k)) (check_capacity-IsAdmitted r k)
    ]
  ]
