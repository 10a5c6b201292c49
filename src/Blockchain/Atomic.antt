-- ===== src/Blockchain/Atomic.antt =====
-- What adding a block does to a store, whatever the store is: AddBlockWithNetwork of
-- deskachain/node/internal/chain/blockchain.go.
use des_ka_project.Prelude.{
  ◌≡◌, ◌≢◌, refl, sym, ap, subst, Bool, true, false, List, [], ◌∷◌, ◌++◌, msg, Option, none, some,
  Error, Result, ok, err, ⊤, Proc, Str, lift, if◌then◌else◌, ◌>>=◌, ◌==◌, last?, Bool-cases,
  Result-cases, ◌⊎◌, inl, inr, arith,
}
use des_ka_project.Prelude.Int.{ℤ}
use des_ka_project.Config.{NetworkConfig}
use des_ka_project.Types.Crypto.{Crypto}
use des_ka_project.Types.Block.{Block, block_protocol_version, block_version_canonical}
use des_ka_project.Chain.Validation.{validate_next_block_with_network}
use des_ka_project.Snapshot.{Snapshot, snapshot_version, snapshot_for_blocks, snapshot_after_block}
use des_ka_project.Blockchain.{
  Store, snapshot_matches_tip, next_state, current_state, commit, save_after, err_atomic_storage,
  save_next, add_checked, add_block_with_network,
}

-- A method that continues another one either ends with the error of the first or goes on from its
-- value.
abbrev BindCases : {S A B : Type 0} → (A → Proc S B) → Result A → S → Result B × S → Type 0
BindCases {S} {A} k r s' t =
    ((e : Error) × (t ≡ (err e, s'))) ⊎ ((a : A) × (r ≡ ok a) × (t ≡ k a s'))

step-cases :
    {S A B : Type 0} (k : A → Proc S B) (r : Result A) (s' : S)
    → BindCases k r s' (elim r [ ok a ↦ k a s' | err e ↦ (err e, s') ])
step-cases k (ok a) s' = inr (a, refl, refl)
step-cases k (err e) s' = inl (e, refl)

bind-cases :
    {S A B : Type 0} (m : Proc S A) (k : A → Proc S B) (s : S)
    → BindCases k (m s).0 (m s).1 ((m >>= k) s)
bind-cases m k s = step-cases k (m s).0 (m s).1

-- What holds of both branches.
either_branch :
    {A : Type 0} (P : A → Type 0) (test : Bool) {x y : A} → P x → P y → P (if test then x else y)
either_branch P true h k = h
either_branch P false h k = k

-- A stored state that is the tip's: its version and height, and the root that a canonical tip names.
pub record BelongsToTip (stored : Snapshot) (tip : Block) : Type 0 where
  pub version_fits : stored.version ≡ snapshot_version
  pub height_fits : stored.height ≡ tip.height
  pub root_fits :
      (block_protocol_version tip ≢ block_version_canonical) ⊎ (stored.state_root ≡ tip.state_root)

snapshot_matches_tip-BelongsToTip :
    (stored : Snapshot) (tip : Block)
    → snapshot_matches_tip stored tip ≡ true
    → BelongsToTip stored tip
unfolding snapshot_matches_tip
snapshot_matches_tip-BelongsToTip stored tip h = record {
  version_fits = ground arith;
  height_fits = ground arith;
  root_fits = elim (Bool-cases (block_protocol_version tip == block_version_canonical)) [
    | inl canonical ↦ inr (ground arith)
    | inr older ↦ inl (λ e. ground arith)
  ];
}

module _ (c : Crypto) (p : NetworkConfig) (b : Block) (blocks : List Block) (tip : Block) where
  -- The snapshot follows from a stored state of the tip, or from a replay of all blocks.
  abbrev pub FollowsFrom : Result Snapshot → Snapshot → Type 0
  FollowsFrom loaded n =
      ((stored : Snapshot) × (loaded ≡ ok stored)
        × BelongsToTip stored tip
        × (snapshot_after_block c stored b p.consensus p ≡ ok n))
      ⊎ (snapshot_for_blocks c (blocks ++ b ∷ []) p.consensus p ≡ ok n)

  next_state-FollowsFrom :
      (loaded : Result Snapshot) (n : Snapshot)
      → next_state c (current_state tip loaded) blocks b p.consensus p ≡ ok n
      → FollowsFrom loaded n
  unfolding next_state
  next_state-FollowsFrom (err e) n h = inr h
  next_state-FollowsFrom (ok stored) n h = elim (Bool-cases (snapshot_matches_tip stored tip)) [
    | inl fits ↦ inl (
      stored,
      refl,
      snapshot_matches_tip-BelongsToTip stored tip fits,
      subst (λ t. next_state c (if t then some stored else none) blocks b p.consensus p ≡ ok n) fits
          h,
    )
    | inr differs ↦ inr (
        subst (λ t. next_state c (if t then some stored else none) blocks b p.consensus p ≡ ok n)
          differs h)
  ]

module _ (c : Crypto) {S : Type 0} (store : Store S) (block_json : Block → Str) (now : ℤ)
    (p : NetworkConfig) (b : Block) (s : S) where
  -- The store after the blocks were read, and after the state was read too.
  abbrev pub after_blocks : S
  after_blocks = (store.blocks s).1

  abbrev pub after_reads : S
  after_reads = (store.load_state after_blocks).1

  -- An error, and the store has only been read.
  abbrev pub Refused : Result ⊤ × S → Type 0
  Refused t = (e : Error) × ((t ≡ (err e, after_blocks)) ⊎ (t ≡ (err e, after_reads)))

  -- One write, of a block that is valid behind the last one read, with the state that follows.
  pub record Saved (blocks : List Block) (t : Result ⊤ × S) : Type 0 where
    pub tip : Block
    pub snapshot : Snapshot
    pub is_tip : last? blocks ≡ some tip
    pub valid :
        validate_next_block_with_network c block_json now b tip blocks p.difficulty p.consensus p
        ≡ ok tt
    pub follows : FollowsFrom c p b blocks tip (store.load_state after_blocks).0 snapshot
    pub written : t ≡ store.save_block_and_state b snapshot after_reads

  abbrev pub Outcome : List Block → Result ⊤ × S → Type 0
  Outcome blocks t = Saved blocks t ⊎ Refused t

  module _ (blocks : List Block) (tip : Block) (is_tip : last? blocks ≡ some tip)
      (valid : validate_next_block_with_network c block_json now b tip blocks p.difficulty
          p.consensus p
        ≡ ok tt) where
    commit-Outcome :
        (n : Snapshot)
        → FollowsFrom c p b blocks tip (store.load_state after_blocks).0 n
        → Outcome blocks (commit c store b n after_reads)
    unfolding commit
    commit-Outcome n follows = elim (Bool-cases store.is_block_state_store) [
      | inl h ↦ inl (record {
        tip = tip;
        snapshot = n;
        is_tip = is_tip;
        valid = valid;
        follows = follows;
        written = rw h refl;
      })
      | inr h ↦ inr (err_atomic_storage, inr (rw h refl))
    ]

    save_after-Outcome :
        Outcome blocks
          (save_after c store blocks tip b p (store.load_state after_blocks).0 after_reads)
    unfolding save_after
    save_after-Outcome =
        elim (bind-cases
          (lift (
            next_state c (current_state tip (store.load_state after_blocks).0) blocks b p.consensus
              p))
          (commit c store b) after_reads) [
            | inl (e, t) ↦ inr (e, inr t)
            | inr (n, made, t) ↦ subst (Outcome blocks) (sym t) (
                commit-Outcome n (
                  next_state-FollowsFrom c p b blocks tip (store.load_state after_blocks).0 n made))
          ]

    save_next-Outcome : Outcome blocks (save_next c store blocks tip b p after_blocks)
    unfolding save_next
    save_next-Outcome =
        either_branch {A = Proc S ⊤} (λ m. Outcome blocks (m after_blocks)) store.is_state_store
          save_after-Outcome
          (inr (msg "production chain requires persistent state storage", inl refl))

  add_checked-Outcome :
      (tip : Option Block) (blocks : List Block)
      → last? blocks ≡ tip
      → Outcome blocks (add_checked c store block_json now tip blocks b p after_blocks)
  unfolding add_checked
  add_checked-Outcome none blocks h = inr (_, inl refl)
  add_checked-Outcome (some tip) blocks h =
      elim (bind-cases
        (lift (
          validate_next_block_with_network c block_json now b tip blocks p.difficulty p.consensus
            p))
        (λ _. save_next c store blocks tip b p) after_blocks) [
          | inl (e, t) ↦ inr (e, inl t)
          | inr (tt, valid, t) ↦
              subst (Outcome blocks) (sym t) (save_next-Outcome blocks tip h valid)
        ]

  pub read-Outcome :
      (blocks : List Block)
      → (store.blocks s).0 ≡ ok blocks
      → Outcome blocks (add_block_with_network c store block_json now b p s)
  unfolding add_block_with_network
  read-Outcome blocks read =
      subst
        (λ r. Outcome blocks (elim r as (λ _. Result ⊤ × S) [
          | ok bs ↦ add_checked c store block_json now (last? bs) bs b p after_blocks
          | err e ↦ (err e, after_blocks)
        ]))
        (sym read) (add_checked-Outcome (last? blocks) blocks refl)

  -- Adding a block to a store, whatever the store is, either ends with one write of the block,
  -- which is then valid behind the last of the blocks read, with a snapshot that follows from the
  -- stored state, if this has the version, the height and for a canonical block the state root of
  -- the last block, or from a replay of the blocks; or it returns an error, and the store has only
  -- been read.
  pub add_block_with_network-Outcome :
      ((blocks : List Block) × ((store.blocks s).0 ≡ ok blocks)
        × Saved blocks (add_block_with_network c store block_json now b p s))
      ⊎ Refused (add_block_with_network c store block_json now b p s)
  unfolding add_block_with_network
  add_block_with_network-Outcome = elim (Result-cases (store.blocks s).0) [
    | inl (blocks, read) ↦ elim (read-Outcome blocks read) [
      | inl saved ↦ inl (blocks, read, saved)
      | inr refused ↦ inr refused
    ]
    | inr (e, failed) ↦ inr (
      e,
      inl (
          ap
            (λ r. elim r as (λ _. Result ⊤ × S) [
              | ok bs ↦ add_checked c store block_json now (last? bs) bs b p after_blocks
              | err e' ↦ (err e', after_blocks)
            ])
            failed),
    )
  ]
