-- ===== src/Core/Transaction/Reward.antt =====
-- The subsidy (src/core/transaction.cpp) and its sum (src/blockchain/blockchain.cpp,
-- CalculateTotalSupply).
use native.Mathlib.Nat.{pow-suc, div-div-eq-div-mul, mod-le}
use native.Mathlib.Decide.{ℕ_discrete}
use dinari_blockchain_hub.Base.{
  ℕ, zero, suc, ◌+◌, ◌-◌, ◌*◌, ◌/◌, ◌%◌, ◌^◌, ◌≤◌, ◌<◌, ◌≡◌, refl, ap, arith, leb, if◌then◌else◌,
}
use dinari_blockchain_hub.Core.Amount.{
  amount_mod, add_amount, max_money, coin, subsidy_halving_interval,
}
use dinari_blockchain_hub.Core.Transaction.{get_block_reward, initial_reward}

-- The loop `for (h = 0; h <= height; ++h)` over the first `n` heights. At height 2^32 - 1 the
-- source's loop would not end.
unfoldable pub supply_below : ℕ → ℕ
supply_below zero = 0
supply_below (suc n) = add_amount (supply_below n) (get_block_reward n)

unfoldable pub calculate_total_supply : ℕ → ℕ
unfolding supply_below
calculate_total_supply height = supply_below (suc height)

-- The reward of an epoch.
epoch_reward : ℕ → ℕ
epoch_reward k = if leb 64 k then 0 else initial_reward / 2 ^ k

get_block_reward-epoch : (h : ℕ) → get_block_reward h ≡ epoch_reward (h / subsidy_halving_interval)
unfolding get_block_reward epoch_reward
get_block_reward-epoch h = refl

epoch_reward-halves : (k : ℕ) → 2 * epoch_reward (suc k) ≤ epoch_reward k
unfolding epoch_reward
epoch_reward-halves k = ground (
  arith,
  ap (λ (d : ℕ). initial_reward / d) (pow-suc 2 k),
  div-div-eq-div-mul initial_reward (2 ^ k) 2,
)

-- What is still to be paid in epoch `k` after `r` of its blocks, and later: at most the rest of
-- the epoch and one more epoch at the same rate.
remaining : ℕ → ℕ → ℕ
remaining k r =
    (subsidy_halving_interval - r) * epoch_reward k + subsidy_halving_interval * epoch_reward k

remaining-inside :
    (k r : ℕ)
    → suc r < subsidy_halving_interval
    → epoch_reward k + remaining k (suc r) ≤ remaining k r
unfolding remaining
remaining-inside k r h =
    let step : subsidy_halving_interval - r ≡ (subsidy_halving_interval - suc r) + 1 =
      omega arith in
    omega (arith, ap (λ (t : ℕ). t * epoch_reward k) step)

remaining-last :
    (k r : ℕ)
    → suc r ≡ subsidy_halving_interval
    → epoch_reward k + remaining (suc k) 0 ≤ remaining k r
unfolding remaining
remaining-last k r h =
    let step : subsidy_halving_interval - r ≡ 1 = omega arith in
    omega (arith, ap (λ (t : ℕ). t * epoch_reward k) step, epoch_reward-halves k)

remaining_at : ℕ → ℕ
remaining_at n = remaining (n / subsidy_halving_interval) (n % subsidy_halving_interval)

remaining_at-suc : (n : ℕ) → get_block_reward n + remaining_at (suc n) ≤ remaining_at n
unfolding remaining_at
remaining_at-suc n =
    let k = n / subsidy_halving_interval in
    let r = n % subsidy_halving_interval in
    rw (get_block_reward-epoch n) (elim (ℕ_discrete (suc r) subsidy_halving_interval) [
      | yes last ↦
          let same_k : suc n / subsidy_halving_interval ≡ suc k = omega arith in
          let same_r : suc n % subsidy_halving_interval ≡ 0 = omega arith in
          rw (same_k, same_r) (remaining-last k r last)
      | no inside ↦
          let same_k : suc n / subsidy_halving_interval ≡ k = omega arith in
          let same_r : suc n % subsidy_halving_interval ≡ suc r = omega arith in
          rw (same_k, same_r) (remaining-inside k r (omega arith))
    ])

supply_below-remaining : (n : ℕ) → supply_below n + remaining_at n ≤ remaining_at 0
unfolding supply_below
supply_below-remaining zero = omega arith
supply_below-remaining (suc n) = omega (
  arith,
  supply_below-remaining n,
  remaining_at-suc n,
  mod-le (supply_below n + get_block_reward n) amount_mod,
)

remaining_at-zero : remaining_at 0 ≤ 420000 * initial_reward
unfolding remaining_at remaining epoch_reward
remaining_at-zero = omega arith

-- At every height the subsidies up to it add up to no more than 21 million coins, and so to no
-- more than MAX_MONEY, and the sum at the next height is this one and the next subsidy: the
-- running total never wraps.
pub calculate_total_supply_bound :
    (height : ℕ)
    → (calculate_total_supply height ≤ 21_000_000 * coin)
      × (calculate_total_supply height ≤ max_money)
      × (calculate_total_supply (suc height)
          ≡ calculate_total_supply height + get_block_reward (suc height))
unfolding calculate_total_supply supply_below
calculate_total_supply_bound height =
    let now = supply_below-remaining (suc height) in
    let next = supply_below-remaining (suc (suc height)) in
    let step = remaining_at-suc (suc height) in
    let start = remaining_at-zero in
    (omega (arith, now, start), omega (arith, now, start), omega (arith, now, step, start))
