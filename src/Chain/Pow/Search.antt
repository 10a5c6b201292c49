-- ===== src/Chain/Pow/Search.antt =====
-- What the mining loop of deskachain/node/internal/chain/pow.go finds.
use des_ka_project.Prelude.{
  ℕ, zero, suc, ◌+◌, ◌%◌, ◌≤◌, ◌<◌, ◌≡◌, refl, ap, subst, sym, ◌⊎◌, inl, inr, Bool, true, false,
  Bool-cases, has_prefix, Option, some, Result, ok, err, ltb, arith,
}
use des_ka_project.Types.Crypto.{Crypto}
use des_ka_project.Types.Block.{Block, block_protocol_version}
use des_ka_project.Types.Block.Header.{
  header_bytes_with_nonce, calculate_hash, canonical_header_bytes_with_nonce,
}
use des_ka_project.Chain.Pow.{
  zeros, hash_with_nonce, mine_from, mine_with_context, validate_proof_of_work,
  err_max_nonce_reached,
}

module _ (c : Crypto) where
  abbrev pub mined : Block → ℕ → Block
  mined b nonce = record b { nonce = nonce; hash = hash_with_nonce c b nonce }

  abbrev pub meets_target : Block → ℕ → Bool
  meets_target b nonce = has_prefix (hash_with_nonce c b nonce) (zeros b.difficulty)

  calculate_hash-mined :
      (b : Block) (nonce : ℕ) → calculate_hash c (mined b nonce) ≡ hash_with_nonce c b nonce
  unfolding calculate_hash header_bytes_with_nonce canonical_header_bytes_with_nonce
      block_protocol_version
  calculate_hash-mined b nonce = refl

  validate_proof_of_work-mined :
      (b : Block) (nonce : ℕ)
      → meets_target b nonce ≡ true
      → validate_proof_of_work c (mined b nonce) ≡ true
  unfolding validate_proof_of_work
  validate_proof_of_work-mined b nonce h = ground (arith, calculate_hash-mined b nonce)

  -- The loop ended: with the first nonce that meets the target, or past the largest one.
  abbrev pub Found : ℕ → Block → ℕ → Option (Result Block) → Type 0
  Found max_nonce b nonce o =
      (n : ℕ) × (o ≡ some (ok (mined b n)))
      × (validate_proof_of_work c (mined b n) ≡ true)
      × (nonce ≤ n)
      × (n ≤ max_nonce)
      × ((k : ℕ) → nonce ≤ k → k < n → meets_target b k ≡ false)

  abbrev pub Exhausted : ℕ → Block → ℕ → Option (Result Block) → Type 0
  Exhausted max_nonce b nonce o =
      (o ≡ some (err err_max_nonce_reached))
      × ((k : ℕ) → nonce ≤ k → k ≤ max_nonce → meets_target b k ≡ false)

  module _ (max_nonce : ℕ) (b : Block) where
    one_more :
        (nonce : ℕ) (o : Option (Result Block))
        → meets_target b nonce ≡ false
        → Found max_nonce b (nonce + 1) o ⊎ Exhausted max_nonce b (nonce + 1) o
        → Found max_nonce b nonce o ⊎ Exhausted max_nonce b nonce o
    one_more nonce o miss (inl (n, e, v, low, high, first)) =
        inl (n, e, v, omega (arith, low), high, λ k l h. ground (arith, first k))
    one_more nonce o miss (inr (e, none_found)) = inr (e, λ k l h. ground (arith, none_found k))

    module _ (bounded : max_nonce < 18446744073709551615) (positive : 0 < max_nonce) where
      abbrev run : ℕ → ℕ → Option (Result Block)
      run fuel nonce = mine_from c (λ _. false) max_nonce fuel b nonce

      abbrev Ends : ℕ → Option (Result Block) → Type 0
      Ends nonce o = Found max_nonce b nonce o ⊎ Exhausted max_nonce b nonce o

      run_past :
          (fuel nonce : ℕ)
          → max_nonce < nonce
          → run (suc fuel) nonce ≡ some (err err_max_nonce_reached)
      unfolding mine_from
      run_past fuel nonce h = ground arith

      run_hit :
          (fuel nonce : ℕ)
          → nonce ≤ max_nonce
          → meets_target b nonce ≡ true
          → run (suc fuel) nonce ≡ some (ok (mined b nonce))
      unfolding mine_from
      run_hit fuel nonce h hit = ground arith

      run_miss :
          (fuel nonce : ℕ)
          → nonce ≤ max_nonce
          → meets_target b nonce ≡ false
          → run (suc fuel) nonce ≡ run fuel (nonce + 1)
      unfolding mine_from
      run_miss fuel nonce h miss =
          let same : (nonce + 1) % 18446744073709551616 ≡ nonce + 1 = omega arith in
          ground (arith, ap (run fuel) same)

      run-Ends :
          (fuel nonce : ℕ)
          → nonce ≤ max_nonce + 1
          → max_nonce + 1 < nonce + fuel
          → Ends nonce (run fuel nonce)
      run-Ends zero nonce low enough = ground arith
      run-Ends (suc fuel) nonce low enough = elim (Bool-cases (ltb max_nonce nonce)) [
        | inl past ↦ inr (run_past fuel nonce (ground arith), λ k l h. ground arith)
        | inr here ↦
            let within : nonce ≤ max_nonce = ground arith in
            elim (Bool-cases (meets_target b nonce)) [
              | inl hit ↦ inl (
                nonce,
                run_hit fuel nonce within hit,
                validate_proof_of_work-mined b nonce hit,
                omega arith,
                within,
                λ k l h. ground arith,
              )
              | inr miss ↦ subst (Ends nonce) (sym (run_miss fuel nonce within miss)) (
                  one_more nonce (run fuel (nonce + 1)) miss
                    (run-Ends fuel (nonce + 1) (omega arith) (omega arith)))
            ]
      ]

  -- The mining loop, not cancelled, with a largest nonce between 1 and 2^64 - 2, starting at most
  -- one above it, and with fuel for the nonces up to it, ends: either with the block at the first
  -- nonce from its own on whose hash meets the target, which passes the proof of work check, or
  -- with the error for the largest nonce, and then no nonce from its own on up to it meets the
  -- target.
  pub mine_with_context_ends :
      (max_nonce : ℕ) (b : Block) (fuel : ℕ)
      → max_nonce < 18446744073709551615
      → 0 < max_nonce
      → b.nonce ≤ max_nonce + 1
      → max_nonce + 1 < b.nonce + fuel
      → Found max_nonce b b.nonce (mine_with_context c (λ _. false) max_nonce fuel b)
        ⊎ Exhausted max_nonce b b.nonce (mine_with_context c (λ _. false) max_nonce fuel b)
  unfolding mine_with_context
  mine_with_context_ends max_nonce b fuel bounded positive =
      run-Ends max_nonce b bounded positive fuel b.nonce

  mine_from_sound :
      (cancelled : ℕ → Bool) (max_nonce fuel : ℕ) (b : Block) (nonce : ℕ) (m : Block)
      → mine_from c cancelled max_nonce fuel b nonce ≡ some (ok m)
      → (validate_proof_of_work c m ≡ true) × (m ≡ mined b m.nonce)
  unfolding mine_from
  mine_from_sound cancelled max_nonce zero b nonce m h = ground arith
  mine_from_sound cancelled max_nonce (suc fuel) b nonce m h = ground (
    arith,
    validate_proof_of_work-mined b nonce,
    mine_from_sound cancelled max_nonce fuel b ((nonce + 1) % 18446744073709551616) m,
  )

  -- A block that mining returns, however it is cancelled and bounded, passes the proof of work
  -- check, and differs from the block given in its nonce and its hash only.
  pub mine_with_context-validate_proof_of_work :
      (cancelled : ℕ → Bool) (max_nonce fuel : ℕ) (b m : Block)
      → mine_with_context c cancelled max_nonce fuel b ≡ some (ok m)
      → (validate_proof_of_work c m ≡ true) × (m ≡ mined b m.nonce)
  unfolding mine_with_context
  mine_with_context-validate_proof_of_work cancelled max_nonce fuel b m =
      mine_from_sound cancelled max_nonce fuel b b.nonce m
