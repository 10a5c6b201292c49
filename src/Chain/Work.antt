-- ===== src/Chain/Work.antt =====
-- deskachain/node/internal/chain/locator.go: the work of a block and of a chain, capped at the
-- largest 64-bit number.
use native.Mathlib.Nat.{mul_assoc, le-mul_of_pos_right}
use des_ka_project.Prelude.{
  subst, sym, Bool-cases, inl, inr, ℕ, zero, suc, ◌+◌, ◌-◌, ◌*◌, ◌/◌, ◌≤◌, ◌≡◌, refl, List, [], ◌∷◌,
  ltb, leb, ◌==◌, if◌then◌else◌, arith,
}
use des_ka_project.Arith.{max_u64}
use des_ka_project.Types.Block.{Block}

-- The loop: `n` more factors of 16.
unfoldable pub work_loop : ℕ → ℕ → ℕ
work_loop zero work = work
work_loop (suc n) work =
    let rest = work_loop n (work * 16) in if ltb (max_u64 / 16) work then max_u64 else rest

unfoldable pub calculate_block_work : ℕ → ℕ
unfolding work_loop
calculate_block_work difficulty =
    if difficulty == 0 then 1 else if leb 16 difficulty then max_u64 else work_loop difficulty 1

unfoldable pub add_work : ℕ → List Block → ℕ
add_work work [] = work
add_work work (b ∷ bs) =
    let rest = add_work (work + calculate_block_work b.difficulty) bs in
    if ltb (max_u64 - work) (calculate_block_work b.difficulty) then max_u64 else rest

unfoldable pub calculate_cumulative_work : List Block → ℕ
unfolding add_work
calculate_cumulative_work blocks = add_work 0 blocks

-- The sum of the work of the blocks, without a cap.
unfoldable pub total_work : List Block → ℕ
total_work [] = 0
total_work (b ∷ bs) = calculate_block_work b.difficulty + total_work bs

abbrev pub capped : ℕ → ℕ
capped n = if ltb max_u64 n then max_u64 else n

add_work-capped :
    (work : ℕ) (bs : List Block) → work ≤ max_u64 → add_work work bs ≡ capped (work + total_work bs)
unfolding add_work total_work
add_work-capped work [] h = ground arith
add_work-capped work (b ∷ bs) h =
    ground (arith, add_work-capped (work + calculate_block_work b.difficulty) bs)

-- The cumulative work of a chain is the sum of the work of its blocks, capped at the largest
-- 64-bit number.
pub calculate_cumulative_work-total_work :
    (bs : List Block) → calculate_cumulative_work bs ≡ capped (total_work bs)
unfolding calculate_cumulative_work
calculate_cumulative_work-total_work bs = ground (arith, add_work-capped 0 bs)

-- A power of 16.
unfoldable pub pow16 : ℕ → ℕ
pow16 zero = 1
pow16 (suc n) = 16 * pow16 n

pow16_pos : (n : ℕ) → 1 ≤ pow16 n
unfolding pow16
pow16_pos zero = omega arith
pow16_pos (suc n) = omega (arith, pow16_pos n)

pow16_15 : pow16 15 ≡ 1152921504606846976
unfolding pow16
pow16_15 = refl

pow16_mono : (n m : ℕ) → n ≤ m → pow16 n ≤ pow16 m
unfolding pow16
pow16_mono zero m h = ground (arith, pow16_pos m)
pow16_mono (suc n) zero h = omega arith
pow16_mono (suc n) (suc m) h = omega (arith, pow16_mono n m (omega (arith, h)))

-- As long as nothing overflows, the loop multiplies.
work_loop-pow16 : (n w : ℕ) → w * pow16 n ≤ max_u64 → work_loop n w ≡ w * pow16 n
unfolding work_loop pow16
work_loop-pow16 zero w h = ground arith
work_loop-pow16 (suc n) w h =
    let same = mul_assoc w 16 (pow16 n) in
    ground (
      arith,
      same,
      le-mul_of_pos_right (w * 16) (pow16_pos n),
      work_loop-pow16 n (w * 16) (subst (λ x. x ≤ max_u64) (sym same) h),
    )

-- The work of a block is 16 to the power of its difficulty below difficulty 16, and the largest
-- 64-bit number from there on.
pub calculate_block_work-pow16 :
    (d : ℕ) → calculate_block_work d ≡ (if leb 16 d then max_u64 else pow16 d)
unfolding calculate_block_work pow16
calculate_block_work-pow16 zero = refl
calculate_block_work-pow16 (suc d) = elim (Bool-cases (leb 16 (suc d))) [
  | inl e ↦ ground arith
  | inr e ↦
      let small : pow16 (suc d) ≤ pow16 15 = pow16_mono (suc d) 15 (ground arith) in
      ground (arith, pow16_15, small, work_loop-pow16 (suc d) 1)
]
