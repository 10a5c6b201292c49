-- ===== src/Blockchain/Audit/Sound.antt =====
-- What the check of the stored state shows (ValidateStateWithNetwork of
-- deskachain/node/internal/chain/blockchain.go).
use des_ka_project.Prelude.{
  ◌≡◌, refl, sym, subst, Bool, true, false, not, List, none, some, Error, msg, Result, ok, err, ⊤,
  Proc, fail_if, ◌>>=◌, ◌>>◌,
}
use des_ka_project.Config.{NetworkConfig}
use des_ka_project.Types.Crypto.{Crypto}
use des_ka_project.Types.Block.{Block}
use des_ka_project.Snapshot.{Snapshot, snapshot_for_blocks}
use des_ka_project.Snapshot.Equivalent.{equivalent}
use des_ka_project.Snapshot.Equivalent.Reordered.{Reordered, equivalent-Reordered}
use des_ka_project.Blockchain.{Store, attempt}
use des_ka_project.Blockchain.Queries.{or_local}
use des_ka_project.Blockchain.Audit.{
  Verdict, verdict_of, judge, compare_blocks, compare_state, compare_stored, check_stored,
  validate_state_with_network,
}

-- Reading changes nothing in the store.
pub record ReadOnly {S : Type 0} (store : Store S) : Type 0 where
  pub tip_keeps : (s : S) → (store.tip s).1 ≡ s
  pub indexes_keep : (s : S) → (store.validate_state_indexes s).1 ≡ s
  pub load_keeps : (s : S) → (store.load_state s).1 ≡ s

-- What is returned without an error satisfies P.
abbrev pub Post : {S A : Type 0} → (A → Type 0) → Result A × S → Type 0
Post P (ok a, s) = P a
Post P (err _, s) = ⊤

module _ {S A B : Type 0} (P : B → Type 0) (f : A → Proc S B) where
  continue-Post :
      (r : Result A) (s : S)
      → ((a : A) → r ≡ ok a → Post P (f a s))
      → Post P (elim r as (λ _. Result B × S) [ ok a ↦ f a s | err e ↦ (err e, s) ])
  continue-Post (ok a) s h = h a refl
  continue-Post (err e) s h = tt

  -- A read and what follows it.
  read-Post :
      (m : Proc S A) (s : S)
      → (m s).1 ≡ s
      → ((a : A) → (m s).0 ≡ ok a → Post P (f a s))
      → Post P ((m >>= f) s)
  read-Post m s e h =
      subst
        (λ t. Post P (elim (m s).0 as (λ _. Result B × S) [ ok a ↦ f a t | err e' ↦ (err e', t) ]))
        (sym e) (continue-Post (m s).0 s h)

  fail_if-Post :
      (b : Bool) (e : Error) (m : Proc S B) (s : S) → Post P (m s) → Post P ((fail_if b e >> m) s)
  fail_if-Post true e m s h = tt
  fail_if-Post false e m s h = h

module _ (c : Crypto) {S : Type 0} (store : Store S) (read_only : ReadOnly store)
    (p : NetworkConfig) (s : S) where
  -- The stored snapshot is a reordering of the one that the stored blocks give.
  abbrev pub Agrees : Type 0
  Agrees =
      (persisted : Snapshot) × (blocks : List Block) × (expected : Snapshot) × ((store.load_state
          s).0
        ≡ ok persisted)
      × ((store.blocks s).0 ≡ ok blocks)
      × (snapshot_for_blocks c blocks (or_local p).consensus (or_local p) ≡ ok expected)
      × Reordered persisted expected

  -- A verdict without an error says that the state is valid, and rightly.
  abbrev pub Right : Verdict → Type 0
  Right (r, none) = (r.valid ≡ true) × Agrees
  Right (r, some e) = ⊤

  verdict_of-Right :
      (persisted : Snapshot) (valid : Bool)
      → (valid ≡ true → Agrees)
      → Right (verdict_of persisted valid)
  verdict_of-Right persisted true h = (refl, h refl)
  verdict_of-Right persisted false h = tt

  judge-Right :
      (tip : Block) (persisted : Snapshot) (blocks : List Block) (r : Result Snapshot)
      → (store.load_state s).0 ≡ ok persisted
      → (store.blocks s).0 ≡ ok blocks
      → snapshot_for_blocks c blocks (or_local p).consensus (or_local p) ≡ r
      → Right (judge tip persisted r)
  judge-Right tip persisted blocks (ok expected) loaded read computed =
      verdict_of-Right persisted (equivalent persisted expected) (λ same. (
        persisted,
        blocks,
        expected,
        loaded,
        read,
        computed,
        equivalent-Reordered persisted expected same,
      ))
  judge-Right tip persisted blocks (err e) loaded read computed = tt

  compare_stored-Right :
      (tip : Block) (r : Result ⊤) → Post Right (compare_stored c store p tip r s)
  compare_stored-Right tip (err e) = tt
  compare_stored-Right tip (ok _) =
      read-Post Right (compare_state c store p tip) store.load_state s (read_only.load_keeps s)
        (λ persisted loaded.
          continue-Post Right (compare_blocks c store p tip persisted) (store.blocks s).0
            (store.blocks s).1
            (λ blocks read.
              judge-Right tip persisted blocks
                (snapshot_for_blocks c blocks (or_local p).consensus (or_local p)) loaded read
                refl))

  -- Where reading changes nothing in the store: a check of the stored state that returns no error
  -- says that the state is valid, and then the stored snapshot is a reordering of the one that the
  -- stored blocks give.
  pub validate_state_with_network-Right : Post Right (validate_state_with_network c store p s)
  unfolding validate_state_with_network
  validate_state_with_network-Right =
      fail_if-Post Right (check_stored c store p) (not store.is_state_store)
        (msg "state store is not available") (store.tip >>= check_stored c store p) s
        (read-Post Right (check_stored c store p) store.tip s (read_only.tip_keeps s) (λ tip _.
          fail_if-Post Right (compare_stored c store p tip) (not store.is_query_store)
            (msg "state query store is not available")
            (attempt c store store.validate_state_indexes >>= compare_stored c store p tip) s
            (read-Post Right (compare_stored c store p tip)
              (attempt c store store.validate_state_indexes) s (read_only.indexes_keep s)
              (λ r _. compare_stored-Right tip r))))
